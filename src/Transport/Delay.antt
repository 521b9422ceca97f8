-- ===== src/Transport/Delay.antt =====
-- The delay between two attempts of the retries.
use gorp.Prelude.{ℕ, zero, suc, ◌*◌, ◌≤◌, ◌≡◌, inl, inr, ltb, leb, arith, Bool-cases, if◌then◌else◌}
use gorp.Backend.{second}
use gorp.Transport.{grow, delay_of}

-- `n` doublings, and the smaller one.
abbrev pub doubled : ℕ → ℕ → ℕ
doubled zero d = d
doubled (suc n) d = doubled n (d * 2)

abbrev pub min : ℕ → ℕ → ℕ
min a b = if leb a b then a else b

doubled-grows : (n d : ℕ) → d ≤ doubled n d
doubled-grows zero d = omega arith
doubled-grows (suc n) d = omega (arith, doubled-grows n (d * 2))

grow-doubled : (n d : ℕ) → d ≤ second → grow n d ≡ min second (doubled n d)
unfolding grow
grow-doubled zero d h = ground arith
grow-doubled (suc n) d h =
    let big = grow-doubled n second (omega arith) in
    let top = doubled-grows n second in
    let up = doubled-grows n (d * 2) in
    elim (Bool-cases (ltb d second)) [
      | inl e ↦ elim (Bool-cases (ltb 500000000 d)) [
        | inl f ↦ rw (e, f, big) (ground arith)
        | inr f ↦ rw (e, f) (grow-doubled n (d * 2) (ground arith))
      ]
      | inr e ↦ rw e (ground arith)
    ]

-- The delay after the attempt with the number n is the configured backoff, doubled n times and never
-- more than a second.
pub delay_of-doubled : (backoff n : ℕ) → delay_of backoff n ≡ min second (doubled n backoff)
unfolding delay_of
delay_of-doubled backoff n =
    let top = doubled-grows n second in
    let up = doubled-grows n backoff in
    elim (Bool-cases (ltb second backoff)) [
      | inl e ↦ rw (e, grow-doubled n second (omega arith)) (ground arith)
      | inr e ↦ rw e (grow-doubled n backoff (ground arith))
    ]
