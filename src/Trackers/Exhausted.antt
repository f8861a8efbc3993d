-- ===== src/Trackers/Exhausted.antt =====
-- The faults of trackers/memory.py that are armed for a number of calls.
use symphony_python.Prelude.{
  ℕ, zero, suc, ◌-◌, leb, ◌≡◌, refl, ap, ◌∙◌, false, Option, some, List, [], ◌∷◌, ◌++◌,
  append_assoc, arith,
}
use symphony_python.Trackers.Faults.{
  FaultInjector, TrackerError, no_faults, consume, fault_of, check,
}
use symphony_python.Trackers.Memory.{Operation, Memory, provider_call}

-- Provider calls one after the other, each after the one before has been answered
unfoldable pub provider_calls : Operation → ℕ → Memory → Memory × List (Option TrackerError)
provider_calls op zero memory = (memory, [])
provider_calls op (suc n) memory =
    let (called, error) = provider_call op memory in
    let (after, errors) = provider_calls op n called in (after, error ∷ errors)

unfoldable pub copies {ℓ} : {A : Type ℓ} → ℕ → A → List A
copies zero a = []
copies (suc n) a = a ∷ copies n a

provider_call-fault :
    (op : Operation) (memory : Memory) (e : TrackerError)
    → memory.closed ≡ false
    → fault_of memory.faults ≡ some e
    → provider_call op memory ≡ (
      record memory { calls = memory.calls ++ (op ∷ []); faults = consume memory.faults },
      some e,
    )
unfolding provider_call check
provider_call-fault op memory e open_now armed = rw (open_now, armed) refl

consume-last : (faults : FaultInjector) → faults.remaining ≡ some 1 → consume faults ≡ no_faults
unfolding consume
consume-last faults h = rw h refl

suc-sub_one : (n : ℕ) → suc (suc n) - 1 ≡ suc n
suc-sub_one n = omega arith

leb-suc : (n : ℕ) → leb (suc n) 0 ≡ false
leb-suc n = ground arith

consume-next :
    (faults : FaultInjector) (n : ℕ)
    → faults.remaining ≡ some (suc (suc n))
    → consume faults ≡ record faults { remaining = some (suc n) }
unfolding consume
consume-next faults n h = rw (h, suc-sub_one n, leb-suc n) refl

-- While the adapter is open, a request, status or rate-limit fault that is armed for a positive
-- number of calls answers exactly so many provider calls with its error, and is cleared by the last
-- of them. Each of the calls is recorded. A pagination fault answers no provider call, so it is not
-- among these.
pub provider_calls-times :
    (op : Operation) (n : ℕ) (memory : Memory) (e : TrackerError)
    → memory.closed ≡ false
    → fault_of memory.faults ≡ some e
    → memory.faults.remaining ≡ some (suc n)
    → provider_calls op (suc n) memory ≡ (
      record memory { calls = memory.calls ++ copies (suc n) op; faults = no_faults },
      copies (suc n) (some e),
    )
unfolding provider_calls copies fault_of
provider_calls-times op zero memory e open_now armed times =
    rw (provider_call-fault op memory e open_now armed, consume-last memory.faults times) refl
provider_calls-times op (suc n) memory e open_now armed times =
    let faults = record memory.faults { remaining = some (suc n) } in
    let called = record memory { calls = memory.calls ++ (op ∷ []); faults = faults } in
    ap
      (λ call.
        ((provider_calls op (suc n) call.0).0, call.1 ∷ (provider_calls op (suc n) call.0).1))
      (provider_call-fault op memory e open_now armed
        ∙ ap (λ f. (record memory { calls = memory.calls ++ (op ∷ []); faults = f }, some e))
            (consume-next memory.faults n times))
    ∙ ap (λ r. (r.0, some e ∷ r.1)) (provider_calls-times op n called e open_now armed refl)
    ∙ rw (append_assoc memory.calls (op ∷ []) (copies (suc n) op)) refl
