-- ===== src/Inbound/Once.antt =====
-- The callback of a service call takes effect once.
use one_m2m_dds_ipe.Prelude.{
  ℕ, String, ◌≡◌, refl, ap, ◌∙◌, inl, inr, true, false, some, ==_refl, string_equality, Bool-cases,
  arith, if◌then◌else◌,
}
use one_m2m_dds_ipe.Prelude.Dict.{lookup, insert, lookup-insert}
use one_m2m_dds_ipe.Prelude.Result.{ok}
use one_m2m_dds_ipe.Core.Common.{Fields, field, no_field, text}
use one_m2m_dds_ipe.Vocab.{
  ProcessedState, failed, succeeded, TxState, service_states, service_terminal,
}
use one_m2m_dds_ipe.State.Transactions.{
  Transaction, service, is_active, known_kind, transaction_kinds, tx_terminal_by_kind,
  update_transaction, move_active,
}
use one_m2m_dds_ipe.State.Managers.{set_service_state, check}
use one_m2m_dds_ipe.Inbound.{Environment, Event, InboundProcessor, CallSpec, finish, emit_event}
use one_m2m_dds_ipe.Inbound.Service.{
  Response, answered, failed_with, set_service, published, service_event, ended, publish, done,
}

-- The row of a service request.
abbrev IsService : String → InboundProcessor → Transaction → Type 0
IsService corr p tx = (lookup corr p.transactions ≡ some tx) × (tx.kind ≡ service)

set_service-active :
    (corr : String) (s : TxState) (now : ℕ) (p : InboundProcessor) (tx : Transaction)
    → service_states s ≡ true
    → IsService corr p tx
    → is_active tx ≡ true
    → set_service corr s now p ≡ (
      ok true,
      record p {
        transactions = insert corr (record tx { state = s; updated = now }) p.transactions;
      },
    )
unfolding set_service set_service_state check update_transaction known_kind transaction_kinds
    move_active
set_service-active corr s now p tx known (found, kind) active = ground arith

set_service-ended :
    (corr : String) (s : TxState) (now : ℕ) (p : InboundProcessor) (tx : Transaction)
    → service_states s ≡ true
    → IsService corr p tx
    → is_active tx ≡ false
    → set_service corr s now p ≡ (ok false, p)
unfolding set_service set_service_state check update_transaction known_kind transaction_kinds
    move_active
set_service-ended corr s now p tx known (found, kind) active = ground arith

finish-transactions :
    (robot iface corr : String) (s : ProcessedState) (now : ℕ) (p : InboundProcessor)
    → (finish robot iface corr s now p).1.transactions ≡ p.transactions
unfolding finish
finish-transactions robot iface corr s now p = ground arith

-- The state that the callback moves the transaction to.
abbrev pub answer_state : Response → TxState
answer_state (answered resp) = TxState.responded
answer_state (failed_with error) = TxState.failed

answer_state-known : (r : Response) → service_states (answer_state r) ≡ true
unfolding service_states
answer_state-known (answered resp) = refl
answer_state-known (failed_with error) = refl

answer_state-terminal :
    (r : Response) (tx : Transaction) (now : ℕ)
    → tx.kind ≡ service
    → is_active (record tx { state = answer_state r; updated = now }) ≡ false
unfolding is_active transaction_kinds tx_terminal_by_kind service_states service_terminal
answer_state-terminal (answered resp) tx now h = ground arith
answer_state-terminal (failed_with error) tx now h = ground arith

module _ (env : Environment) where
  event-transactions :
      (now : ℕ) (ev : Event) (corr status detail : String) (p : InboundProcessor)
      → (service_event env now ev corr status detail p).1.transactions ≡ p.transactions
  unfolding service_event emit_event
  event-transactions now ev corr status detail p = refl

  ended-transactions :
      (now : ℕ) (ev : Event) (corr status detail : String) (s : ProcessedState)
      (p : InboundProcessor)
      → (ended env now ev corr status detail s p).1.transactions ≡ p.transactions
  ended-transactions now ev corr status detail s p =
      let p' = (service_event env now ev corr status detail p).1 in
      ground (
        arith,
        event-transactions now ev corr status detail p,
        finish-transactions ev.robot_id ev.interface corr s now p',
      )

  publish-transactions :
      (now : ℕ) (ev : Event) (view : String) (content : Fields) (p : InboundProcessor)
      → (publish env now ev view content p).1.transactions ≡ p.transactions
  unfolding publish
  publish-transactions now ev view content p = ground arith

  module _ (now : ℕ) (spec : CallSpec) (ev : Event) (corr : String) where
    done-late :
        (r : Response) (p : InboundProcessor) (tx : Transaction)
        → IsService corr p tx
        → is_active tx ≡ false
        → done env now spec ev corr r p ≡ (ok tt, p)
    unfolding done
    done-late (answered resp) p tx h ended_before = ground (
      arith,
      set_service-ended corr TxState.responded now p tx (answer_state-known (answered resp)) h
          ended_before,
    )
    done-late (failed_with error) p tx h ended_before = ground (
      arith,
      set_service-ended corr TxState.failed now p tx (answer_state-known (failed_with error)) h
          ended_before,
    )

    done-transactions :
        (r : Response) (p : InboundProcessor) (tx : Transaction)
        → IsService corr p tx
        → is_active tx ≡ true
        → (done env now spec ev corr r p).1.transactions
          ≡ insert corr (record tx { state = answer_state r; updated = now }) p.transactions
    unfolding done
    done-transactions (answered resp) p tx h active =
        let content =
          field "requestId" (text corr) (field "response" (published spec resp) no_field) in
        let q = (set_service corr TxState.responded now p).1 in
        let q' = (publish env now ev "response" content q).1 in
        let moved =
          set_service-active corr TxState.responded now p tx (answer_state-known (answered resp)) h
            active in
        ground (
          arith,
          moved,
          publish-transactions now ev "response" content q,
          ended-transactions now ev corr "responded" "" succeeded q',
        )
    done-transactions (failed_with error) p tx h active =
        let moved =
          set_service-active corr TxState.failed now p tx (answer_state-known (failed_with error)) h
            active in
        ground (
          arith,
          moved,
          ended-transactions now ev corr "failed" error failed
              (set_service corr TxState.failed now p).1,
        )

  -- The callback of a service call takes effect once. On the row of a service that is still active
  -- it leaves the state `responded`, or `failed` for an error; on a row that has ended, by a
  -- timeout for instance, it changes nothing at all. After it, another call of the callback,
  -- whatever its response, changes nothing: no second response is published.
  pub done-once :
      (now now' : ℕ) (spec : CallSpec) (ev : Event) (corr : String) (r r' : Response)
      (p : InboundProcessor) (tx : Transaction)
      → lookup corr p.transactions ≡ some tx
      → tx.kind ≡ service
      → let p' = (done env now spec ev corr r p).1 in
        (lookup corr p'.transactions
          ≡ some (if is_active tx then record tx { state = answer_state r; updated = now } else tx))
        × (is_active tx ≡ false → p' ≡ p)
        × (done env now' spec ev corr r' p' ≡ (ok tt, p'))
  done-once now now' spec ev corr r r' p tx found kind =
      let p' = (done env now spec ev corr r p).1 in
      let tx' : Transaction = record tx { state = answer_state r; updated = now } in
      elim (Bool-cases (is_active tx)) [
        | inl active ↦
            let there : lookup corr p'.transactions ≡ some tx' =
              ap (lookup corr) (done-transactions now spec ev corr r p tx (found, kind) active)
              ∙ lookup-insert corr corr tx' p.transactions
              ∙ ap (λ b. if b then some tx' else lookup corr p.transactions) (==_refl corr) in
            (
              rw active there,
              λ over. cc (over, active),
              done-late now' spec ev corr r' p' tx' (there, kind)
                  (answer_state-terminal r tx now kind),
            )
        | inr over ↦
            let same = done-late now spec ev corr r p tx (found, kind) over in
            let back : p' ≡ p = ap (λ s. s.1) same in
            (
              rw over (ap (λ (q : InboundProcessor). lookup corr q.transactions) back ∙ found),
              λ _. back,
              rw back (done-late now' spec ev corr r' p tx (found, kind) over),
            )
      ]
