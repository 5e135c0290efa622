-- ===== src/Auth/Fingerprint.antt =====
-- `AuthTicketFingerprint` as a replay discriminator.
use revive_emu.Base.{
  ℕ, zero, suc, ◌+◌, ◌*◌, ◌%◌, ◌^◌, ◌≤◌, ◌<◌, ◌≡◌, ◌≢◌, sym, subst, ap, some, bit_xor, arith,
}
use native.Mathlib.Decide.{ℕ_discrete}
use revive_emu.Base.Bytes.{Memory, IsBytes, u64_mod}
use revive_emu.Base.Bits.{bit_xor-lt, bit_xor_cancel_left, bit_xor_cancel_right}
use revive_emu.Auth.Ticket.{fnv_offset, fnv_prime, fnv_step, fnv_loop, ticket_fingerprint}

fnv_step-lt : (hash byte : ℕ) → fnv_step hash byte < 2 ^ 64
unfolding fnv_step
fnv_step-lt hash byte = omega arith

-- The inverse of the prime modulo 2 ^ 64.
abbrev fnv_inverse : ℕ
fnv_inverse = 14886173955864302971

prime_undone : (a : ℕ) → a < 2 ^ 64 → a * fnv_prime % u64_mod * fnv_inverse % u64_mod ≡ a
prime_undone a h = omega arith

-- The prime is odd, so multiplication by it modulo 2 ^ 64 can be undone.
mul_prime_cancel :
    (a b : ℕ) → a < 2 ^ 64 → b < 2 ^ 64 → a * fnv_prime % u64_mod ≡ b * fnv_prime % u64_mod → a ≡ b
mul_prime_cancel a b ha hb e =
    omega (arith, prime_undone a ha, prime_undone b hb, ap (λ (t : ℕ). t * fnv_inverse % u64_mod) e)

xor_byte-lt : (hash byte : ℕ) → hash < 2 ^ 64 → byte < 256 → bit_xor hash byte < 2 ^ 64
xor_byte-lt hash byte h b = bit_xor-lt 64 hash byte h (omega arith)

fnv_step_cancel :
    (h g b : ℕ) → h < 2 ^ 64 → g < 2 ^ 64 → b < 256 → fnv_step h b ≡ fnv_step g b → h ≡ g
unfolding fnv_step
fnv_step_cancel h g b hh hg hb e =
    bit_xor_cancel_right 64 h g b hh hg
      (mul_prime_cancel _ _ (xor_byte-lt h b hh hb) (xor_byte-lt g b hg hb) e)

fnv_step_byte : (h b c : ℕ) → h < 2 ^ 64 → b < 256 → c < 256 → fnv_step h b ≡ fnv_step h c → b ≡ c
unfolding fnv_step
fnv_step_byte h b c hh hb hc e =
    bit_xor_cancel_left 64 h b c (omega arith) (omega arith)
      (mul_prime_cancel _ _ (xor_byte-lt h b hh hb) (xor_byte-lt h c hh hc) e)

-- Over the same bytes, two different running hashes never meet.
fnv_loop_cancel :
    (n i h g : ℕ) (p q : Memory)
    → IsBytes p
    → ((j : ℕ) → i ≤ j → p j ≡ q j)
    → h < 2 ^ 64
    → g < 2 ^ 64
    → fnv_loop p n i h ≡ fnv_loop q n i g
    → h ≡ g
unfolding fnv_loop
fnv_loop_cancel zero i h g p q bp same hh hg e = e
fnv_loop_cancel (suc n) i h g p q bp same hh hg e = fnv_step_cancel h g (p i) hh hg (bp i) (
    fnv_loop_cancel n (i + 1) (fnv_step h (p i)) (fnv_step g (p i)) p q bp
      (λ j le. same j (omega arith)) (fnv_step-lt h (p i)) (fnv_step-lt g (p i))
      (subst (λ b. fnv_loop p n (i + 1) (fnv_step h (p i)) ≡ fnv_loop q n (i + 1) (fnv_step g b))
        (sym (same i (omega arith))) e))

-- Tickets that agree everywhere but at one offset within the rounds left.
fnv_loop_differ :
    (n i k h : ℕ) (p q : Memory)
    → IsBytes p
    → IsBytes q
    → ((j : ℕ) → j ≢ k → p j ≡ q j)
    → p k ≢ q k
    → i ≤ k
    → k < i + n
    → h < 2 ^ 64
    → fnv_loop p n i h ≢ fnv_loop q n i h
unfolding fnv_loop
fnv_loop_differ zero i k h p q bp bq same diff le lt hh e = absurd (omega arith)
fnv_loop_differ (suc n) i k h p q bp bq same diff le lt hh e = elim (ℕ_discrete i k) [
  | yes here ↦ diff (
      fnv_step_byte h (p k) (q k) hh (bp k) (bq k) (
        fnv_loop_cancel n (i + 1) (fnv_step h (p k)) (fnv_step h (q k)) p q bp
          (λ j below. same j (omega arith)) (fnv_step-lt h (p k)) (fnv_step-lt h (q k))
          (subst
            (λ t. fnv_loop p n (i + 1) (fnv_step h (p t)) ≡ fnv_loop q n (i + 1) (fnv_step h (q t)))
            here e)))
  | no later ↦
      fnv_loop_differ n (i + 1) k (fnv_step h (p i)) p q bp bq same diff (omega arith) (omega arith)
        (fnv_step-lt h (p i))
        (subst (λ b. fnv_loop p n (i + 1) (fnv_step h (p i)) ≡ fnv_loop q n (i + 1) (fnv_step h b))
          (sym (same i later)) e)
]

-- Two tickets of the same size that differ in exactly one byte have different fingerprints.
pub ticket_fingerprint_one_byte :
    (p q : Memory) (size k : ℕ)
    → IsBytes p
    → IsBytes q
    → k < size
    → ((j : ℕ) → j ≢ k → p j ≡ q j)
    → p k ≢ q k
    → ticket_fingerprint (some p) size ≢ ticket_fingerprint (some q) size
unfolding ticket_fingerprint
ticket_fingerprint_one_byte p q size k bp bq lt same diff e =
    fnv_loop_differ size 0 k fnv_offset p q bp bq same diff (omega arith) (omega arith)
      (omega arith) (ground arith)
