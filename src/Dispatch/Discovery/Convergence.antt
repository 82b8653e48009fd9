-- ===== src/Dispatch/Discovery/Convergence.antt =====
-- What a graph that is returned as discovered has in common with the polls before it.
use one_m2m_dds_ipe.Prelude.{
  ℕ, suc, ◌≤◌, ◌<◌, ◌≡◌, refl, ap, sym, ◌∙◌, subst, Bool, true, false, Option, none, some, List, [],
  ◌∷◌, ◌++◌, length, leb, ltb, if◌then◌else◌, arith, string_equality, pair_equality, list_equality,
  Bool-cases, inl, inr, ==_cases, leb→le, length-append,
}
use mathlib.Core.List.{append-nil, append_assoc}
use one_m2m_dds_ipe.Prelude.Result.{ok, err, value_error}
use one_m2m_dds_ipe.Dispatch.Discovery.{
  Snapshot, Fingerprint, graph_fingerprint, application_interface_count, Poll, Awaited, discovered,
  raised, polling, same_as, next_stable, await_loop, await_graph_convergence,
}

-- Every poll shows a graph with the fingerprint `f`, and with an interface.
abbrev pub AllAgree : Fingerprint → List Poll → Type 0
AllAgree f [] = Unit
AllAgree f (p ∷ polls) =
    (graph_fingerprint p.seen ≡ f) × (0 < application_interface_count p.seen) × AllAgree f polls

abbrev AgreeWith : Option Fingerprint → List Poll → Type 0
AgreeWith none run = run ≡ []
AgreeWith (some f) run = AllAgree f run

AllAgree-append :
    (f : Fingerprint) (run : List Poll) (p : Poll)
    → AllAgree f run
    → graph_fingerprint p.seen ≡ f
    → 0 < application_interface_count p.seen
    → AllAgree f (run ++ (p ∷ []))
AllAgree-append f [] p a e c = (e, c, tt)
AllAgree-append f (q ∷ run) p a e c = (a.0, a.1, AllAgree-append f run p a.2 e c)

-- The polls so far end with `stable` polls that agree with the last fingerprint.
record Trail (seen : List Poll) (previous : Option Fingerprint) (stable : ℕ) : Type 0 where
  before : List Poll
  run : List Poll
  split : seen ≡ before ++ run
  counted : length run ≡ stable
  agree : AgreeWith previous run

fresh_run :
    (seen : List Poll) (p : Poll)
    → 0 < application_interface_count p.seen
    → Trail (seen ++ (p ∷ [])) (some (graph_fingerprint p.seen)) 1
fresh_run seen p c = record {
  before = seen;
  run = p ∷ [];
  split = refl;
  counted = omega arith;
  agree = (refl, c, tt);
}

no_run :
    (seen : List Poll) (p : Poll) → Trail (seen ++ (p ∷ [])) (some (graph_fingerprint p.seen)) 0
no_run seen p = record {
  before = seen ++ (p ∷ []);
  run = [];
  split = sym (append-nil _);
  counted = refl;
  agree = tt;
}

longer_run :
    (seen : List Poll) (p : Poll) (f : Fingerprint) (stable : ℕ)
    → Trail seen (some f) stable
    → graph_fingerprint p.seen ≡ f
    → 0 < application_interface_count p.seen
    → Trail (seen ++ (p ∷ [])) (some (graph_fingerprint p.seen)) (suc stable)
longer_run seen p f stable t e c = record {
  before = t.before;
  run = t.run ++ (p ∷ []);
  split = ap (λ l. l ++ (p ∷ [])) t.split ∙ append_assoc t.before t.run (p ∷ []);
  counted = omega (arith, length-append t.run (p ∷ []), t.counted);
  agree =
      subst (λ g. AllAgree g (t.run ++ (p ∷ []))) (sym e) (AllAgree-append f t.run p t.agree e c);
}

Trail-seen :
    (seen : List Poll) (p : Poll) (previous : Option Fingerprint) (stable : ℕ)
    → 0 < application_interface_count p.seen
    → Trail seen previous stable
    → Trail
        (seen ++ (p ∷ []))
        (some (graph_fingerprint p.seen))
        (if same_as (graph_fingerprint p.seen) previous then suc stable else 1)
Trail-seen seen p none stable c t = fresh_run seen p c
Trail-seen seen p (some f) stable c t = elim (==_cases (graph_fingerprint p.seen) f) [
  | inl (e, q) ↦ rw e (longer_run seen p f stable t q c)
  | inr (e, _) ↦ rw e (fresh_run seen p c)
]

Trail-next :
    (seen : List Poll) (p : Poll) (previous : Option Fingerprint) (stable : ℕ)
    → Trail seen previous stable
    → Trail
        (seen ++ (p ∷ []))
        (some (graph_fingerprint p.seen))
        (next_stable p.seen previous stable)
Trail-next seen p previous stable t =
    elim (Bool-cases (ltb 0 (application_interface_count p.seen))) [
      | inr e ↦ rw e (no_run seen p)
      | inl e ↦ rw e (Trail-seen seen p previous stable (ground arith) t)
    ]

abbrev Converged : List Poll → ℕ → Snapshot → ℕ → Type 0
Converged polls stable_polls s m =
    (before run after : List Poll) × (polls ≡ before ++ (run ++ after))
    × (length run ≡ m)
    × (stable_polls ≤ m)
    × AllAgree (graph_fingerprint s) run

abbrev IsConverged : List Poll → ℕ → Awaited → Type 0
IsConverged polls stable_polls (discovered s samples m) = Converged polls stable_polls s m
IsConverged polls stable_polls raised = Unit
IsConverged polls stable_polls polling = Unit

Trail-Converged :
    (seen polls : List Poll) (p : Poll) (stable_polls m : ℕ)
    → Trail (seen ++ (p ∷ [])) (some (graph_fingerprint p.seen)) m
    → stable_polls ≤ m
    → Converged (seen ++ (p ∷ polls)) stable_polls p.seen m
Trail-Converged seen polls p stable_polls m t h = (
  t.before,
  t.run,
  polls,
  sym (append_assoc seen (p ∷ []) polls)
      ∙ ap (λ l. l ++ polls) t.split
      ∙ append_assoc t.before t.run polls,
  t.counted,
  h,
  t.agree,
)

await_loop-IsConverged :
    (stable_polls : ℕ) (polls seen : List Poll) (previous : Option Fingerprint) (stable samples : ℕ)
    → Trail seen previous stable
    → IsConverged
        (seen ++ polls)
        stable_polls
        (await_loop stable_polls polls previous stable samples)
unfolding await_loop
await_loop-IsConverged stable_polls [] seen previous stable samples t = tt
await_loop-IsConverged stable_polls (p ∷ polls) seen previous stable samples t =
    let now_stable = next_stable p.seen previous stable in
    let trail = Trail-next seen p previous stable t in
    elim (Bool-cases (leb stable_polls now_stable)) [
      | inl e ↦
          rw (IsConverged, e)
            (Trail-Converged seen polls p stable_polls now_stable trail
              (leb→le stable_polls now_stable e))
      | inr e ↦ elim (Bool-cases p.deadline_passed) [
        | inl d ↦ rw (IsConverged, e) rw (IsConverged, d) tt
        | inr d ↦
            rw (IsConverged, e) rw (IsConverged, d)
              (subst
                (λ l. IsConverged l stable_polls (
                  await_loop stable_polls polls (some (graph_fingerprint p.seen)) now_stable
                    (suc samples)))
                (append_assoc seen (p ∷ []) polls)
                (await_loop-IsConverged stable_polls polls (seen ++ (p ∷ [])) _ now_stable
                  (suc samples) trail))
      ]
    ]

not_raised : (b : Bool) (a c : Awaited) → (if b then err value_error else ok a) ≡ ok c → a ≡ c
not_raised true a c h = cc
not_raised false a c h = cc

-- A graph is returned as discovered only after at least `stable_polls` polls in a row that all
-- show its fingerprint and at least one interface.
pub await_graph_convergence-IsConverged :
    (stable_polls : ℕ) (polls : List Poll) (s : Snapshot) (samples m : ℕ)
    → await_graph_convergence stable_polls polls ≡ ok (discovered s samples m)
    → (before run after : List Poll) × (polls ≡ before ++ (run ++ after))
      × (length run ≡ m)
      × (stable_polls ≤ m)
      × AllAgree (graph_fingerprint s) run
unfolding await_graph_convergence
await_graph_convergence-IsConverged stable_polls polls s samples m h =
    let start : Trail [] none 0 = record {
      before = [];
      run = [];
      split = refl;
      counted = refl;
      agree = refl;
    } in
    subst (λ a. IsConverged polls stable_polls a)
      (not_raised (ltb stable_polls 1) _ (discovered s samples m) h)
      (await_loop-IsConverged stable_polls polls [] none 0 0 start)
