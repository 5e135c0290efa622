-- ===== src/Validation/Handles.antt =====
-- The vector of handles where a validation is started, answered and aborted.
use revive_emu.Base.{
  ℕ, ◌≡◌, ◌≢◌, inl, inr, refl, Bool, false, ◌||◌, Option, none, some, [], ◌∷◌, ◌++◌, ◌==◌, ltb,
  Bool-cases, arith,
}
use revive_emu.Base.Bytes.{Memory}
use revive_emu.Validation.{
  Table, Handle, Verdict, inactive, error_none, error_not_finished, own_verdict, verdict_of,
  handle_at, erase_handle, process_ongoing, abort_ongoing, check_ticket, start_own,
  start_validating,
}

pub handle_at-append :
    (a : ℕ) (h : Handle) (t : Table)
    → handle_at a t ≡ none
    → handle_at a (t ++ (a, h) ∷ []) ≡ some h
unfolding handle_at
handle_at-append a h [] e = ground arith
handle_at-append a h ((b, k) ∷ t) e = ground (arith, handle_at-append a h t)

erase_handle-append :
    (a : ℕ) (h : Handle) (t : Table) → handle_at a t ≡ none → erase_handle a (t ++ (a, h) ∷ []) ≡ t
unfolding handle_at erase_handle
erase_handle-append a h [] e = ground arith
erase_handle-append a h ((b, k) ∷ t) e = ground (arith, erase_handle-append a h t)

abort-append :
    (a : ℕ) (h : Handle) (t : Table)
    → a ≢ inactive
    → handle_at a t ≡ none
    → abort_ongoing (t ++ (a, h) ∷ []) a ≡ t
unfolding abort_ongoing
abort-append a h t z e = ground (arith, erase_handle-append a h t e)

abort_inactive : (t : Table) → abort_ongoing t inactive ≡ t
unfolding abort_ongoing
abort_inactive t = refl

abort-start_own :
    (t : Table) (allow : Bool) (p : Memory) (size ip address : ℕ)
    → address ≢ inactive
    → handle_at address t ≡ none
    → let r = start_own t allow p size ip address in abort_ongoing r.0 r.1 ≡ t
unfolding start_own
abort-start_own t allow p size ip address z e = elim (Bool-cases (ltb size 8)) [
  | inl small ↦ rw small (abort_inactive t)
  | inr big ↦ rw big (abort-append address (check_ticket allow p size ip) t z e)
]

-- With the original library or without it, and for every ticket and size, aborting the handle that
-- a start gave, under a new address that is not 0, leaves the vector of handles as it was before
-- the start.
pub abort_ongoing-start_validating :
    (t : Table) (original : Option (ℕ × ℕ)) (allow : Bool) (p : Memory) (size ip address : ℕ)
    → address ≢ inactive
    → handle_at address t ≡ none
    → let r = start_validating t original allow p size ip address in abort_ongoing r.0 r.1 ≡ t
unfolding start_validating
abort_ongoing-start_validating t none allow p size ip address z e =
    abort-start_own t allow p size ip address z e
abort_ongoing-start_validating t (some (code, handle)) allow p size ip address z e =
    elim (Bool-cases (code == error_none || code == error_not_finished)) [
      | inl taken ↦ rw taken (abort-append address _ t z e)
      | inr left ↦ rw left (abort-start_own t allow p size ip address z e)
    ]

-- A handle that stands in the table is answered from what it points at.
pub process_present :
    (t : Table) (original : Option Verdict) (a : ℕ) (h : Handle)
    → a ≢ inactive
    → handle_at a t ≡ some h
    → process_ongoing t original a ≡ some (verdict_of original h)
unfolding process_ongoing
process_present t original a h z e = ground arith

-- A start without the original library, on a ticket of at least 8 bytes.
pub process-start :
    (t : Table) (allow : Bool) (p : Memory) (size ip address : ℕ)
    → address ≢ inactive
    → handle_at address t ≡ none
    → ltb size 8 ≡ false
    → let r = start_validating t none allow p size ip address in
      (r.1 ≡ address)
      × (r.2 ≡ error_not_finished)
      × (process_ongoing r.0 none address ≡ some (own_verdict (check_ticket allow p size ip)))
unfolding start_validating start_own verdict_of
process-start t allow p size ip address z e big =
    let h : Handle = check_ticket allow p size ip in
    rw big (
      refl,
      refl,
      process_present (t ++ (address, h) ∷ []) none address h z (handle_at-append address h t e),
    )
