-- ===== src/Queues/Provisioning/Pending.antt =====
-- What is pending in a `ProvisioningQueue`, in which order, and how much.
use one_m2m_dds_ipe.Prelude.{
  ◌≤◌, String, ◌≡◌, refl, Bool, true, false, Option, none, some, List, [], ◌∷◌, ◌++◌, if◌then◌else◌,
  ◌==◌, contains, string_equality, arith, ◌∙◌, ap,
}
use one_m2m_dds_ipe.Prelude.Dict.{
  Dict, keys, keys-insert, member-eq-false, lookup, member, insert, NodupKeys, lookup-insert,
  insert-NodupKeys,
}
use one_m2m_dds_ipe.Prelude.Sets.{length-le_of_member, insert_within}
use one_m2m_dds_ipe.Prelude.Result.{Result, ok, err}
use one_m2m_dds_ipe.Queues.Provisioning.{
  Argument, removals, other, ProvisioningQueue, kinds, update, pending_removals, merge, put, get,
  qsize,
}

-- What a successful put stores under its kind.
abbrev pub stored {ℓ} : {A : Type ℓ} → String → Argument A → ProvisioningQueue A → Argument A
stored job (other a) q = other a
stored job (removals new) q =
    if job == "remove_interfaces"
    then removals (update (pending_removals (lookup job q)) new)
    else removals new

put-stored {ℓ} :
    {A : Type ℓ} (job : String) (arg : Argument A) (q q' : ProvisioningQueue A)
    → put job arg q ≡ ok q'
    → (q' ≡ insert job (stored job arg q) q) × (contains job kinds ≡ true)
unfolding put merge
put-stored job (other a) q q' h = ground arith
put-stored job (removals new) q q' h = ground arith

-- No kind is pending twice, and only known kinds are.
pub record IsPending {ℓ} {A : Type ℓ} (q : ProvisioningQueue A) : Type 0 where
  pub distinct : NodupKeys q
  pub known : (k : String) → member k q ≡ true → contains k kinds ≡ true

IsPending-put {ℓ} :
    {A : Type ℓ} (job : String) (arg : Argument A) (q q' : ProvisioningQueue A)
    → put job arg q ≡ ok q'
    → IsPending q
    → IsPending q'
IsPending-put job arg q q' h p =
    let (e, listed) = put-stored job arg q q' h in
    rw e (record {
      distinct = insert-NodupKeys job (stored job arg q) q p.distinct;
      known = insert_within kinds q job (stored job arg q) p.known listed;
    })

IsPending-tail {ℓ} :
    {A : Type ℓ} (k : String) (v : Argument A) (q : ProvisioningQueue A)
    → IsPending ((k, v) ∷ q)
    → IsPending q
unfolding member
IsPending-tail k v q p = record {
  distinct = p.distinct.1;
  known = λ j m. p.known j (if_same (j == k) (member j q) m);
}
  where
    if_same : (b c : Bool) → c ≡ true → (if b then true else c) ≡ true
    if_same true c h = refl
    if_same false c h = h

pub data Call {ℓ} (A : Type ℓ) : Type ℓ where
  put_call : String → Argument A → Call A
  get_call : Call A

-- A call that raises leaves the queue as it was.
after {ℓ} : {A : Type ℓ} → Result (ProvisioningQueue A) → ProvisioningQueue A → ProvisioningQueue A
after (ok q') q = q'
after (err e) q = q

after_get {ℓ} :
    {A : Type ℓ}
    → Result ((String × Argument A) × ProvisioningQueue A)
    → ProvisioningQueue A
    → ProvisioningQueue A
after_get (ok (item, q')) q = q'
after_get (err e) q = q

pub serve {ℓ} : {A : Type ℓ} → List (Call A) → ProvisioningQueue A → ProvisioningQueue A
unfolding after after_get
serve [] q = q
serve (put_call job arg ∷ calls) q = serve calls (after (put job arg q) q)
serve (get_call ∷ calls) q = serve calls (after_get (get q) q)

IsPending-after {ℓ} :
    {A : Type ℓ} (job : String) (arg : Argument A) (q : ProvisioningQueue A)
    (r : Result (ProvisioningQueue A))
    → put job arg q ≡ r
    → IsPending q
    → IsPending (after r q)
unfolding after
IsPending-after job arg q (ok q') h p = IsPending-put job arg q q' h p
IsPending-after job arg q (err e) h p = p

IsPending-after_get {ℓ} :
    {A : Type ℓ} (q : ProvisioningQueue A) → IsPending q → IsPending (after_get (get q) q)
unfolding after_get get
IsPending-after_get [] p = p
IsPending-after_get ((k, v) ∷ q) p = IsPending-tail k v q p

IsPending-serve {ℓ} :
    {A : Type ℓ} (calls : List (Call A)) (q : ProvisioningQueue A)
    → IsPending q
    → IsPending (serve calls q)
unfolding serve
IsPending-serve [] q p = p
IsPending-serve (put_call job arg ∷ calls) q p =
    IsPending-serve calls (after (put job arg q) q) (IsPending-after job arg q _ refl p)
IsPending-serve (get_call ∷ calls) q p =
    IsPending-serve calls (after_get (get q) q) (IsPending-after_get q p)

-- However the puts and gets come, from an empty queue at most six jobs are pending, and no kind
-- twice.
pub serve-bounded {ℓ} :
    {A : Type ℓ} (calls : List (Call A)) → (qsize (serve calls []) ≤ 6) × NodupKeys (serve calls [])
unfolding qsize
serve-bounded {A} calls =
    let p =
      IsPending-serve {A = A} calls []
        (record { distinct = tt; known = λ k m. unfold member in cc }) in
    (length-le_of_member kinds (serve calls []) p.distinct p.known, p.distinct)

-- What a successful put changes: its own kind has the new argument, every other kind what it had,
-- and the order of the kinds is that of their first arrival.
pub put_lem {ℓ} :
    {A : Type ℓ} (job : String) (arg : Argument A) (q q' : ProvisioningQueue A)
    → put job arg q ≡ ok q'
    → ((k : String) → lookup k q' ≡ (if k == job then some (stored job arg q) else lookup k q))
      × (keys q' ≡ (if member job q then keys q else keys q ++ (job ∷ [])))
put_lem job arg q q' h =
    let (e, listed) = put-stored job arg q q' h in
    rw e (λ k. lookup-insert k job (stored job arg q) q, keys-insert job (stored job arg q) q)

abbrev pub or_other {ℓ} : {A : Type ℓ} → Option A → Option A → Option A
or_other (some a) o = some a
or_other none o = o

or_other-nil {ℓ} : {A : Type ℓ} (j : String) (o : Option A) → or_other o (lookup {V = A} j []) ≡ o
unfolding lookup
or_other-nil j none = refl
or_other-nil j (some a) = refl

lookup-update {ℓ} :
    {A : Type ℓ} (j : String) (old new : Dict String A)
    → NodupKeys new
    → lookup j (update old new) ≡ or_other (lookup j new) (lookup j old)
unfolding update lookup
lookup-update j old [] u = refl
lookup-update j old ((k, v) ∷ new) u = ground (
  arith,
  lookup-update j (insert k v old) new u.1,
  lookup-insert j k v old,
  member-eq-false k new u.0,
  string_equality.equals_iff j k,
)

-- Queueing removals while others wait loses none of either: the job then holds, for each
-- interface, what the newer list says of it, and else what was pending.
pub removals-merged {ℓ} :
    {A : Type ℓ} (old new : Dict String A) (q q' : ProvisioningQueue A)
    → NodupKeys old
    → NodupKeys new
    → lookup "remove_interfaces" q ≡ some (removals old)
    → put "remove_interfaces" (removals new) q ≡ ok q'
    → (m : Dict String A) × (lookup "remove_interfaces" q' ≡ some (removals m))
      × ((j : String) → lookup j m ≡ or_other (lookup j new) (lookup j old))
unfolding pending_removals
removals-merged old new q q' uo un found h =
    let merged = update (update [] old) new in
    (
      merged,
      (put_lem "remove_interfaces" (removals new) q q' h).0 "remove_interfaces" ∙ rw found,
      λ j.
          lookup-update j (update [] old) new un
          ∙ ap (or_other (lookup j new))
              (lookup-update j [] old uo ∙ or_other-nil j (lookup j old)),
    )
