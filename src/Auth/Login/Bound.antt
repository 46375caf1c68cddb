-- ===== src/Auth/Login/Bound.antt =====
-- How many passwords can be tried against an account.
use raycarwash_project.Base.{
  ℕ, suc, ◌+◌, ◌-◌, ◌*◌, ◌/◌, ◌≤◌, ◌<◌, ◌≡◌, ◌⊎◌, refl, Bool, none, some, List, [], ◌∷◌, arith, inl,
  inr,
}
use raycarwash_project.Auth.Login.{
  LoginUser, lockout, is_locked, record_failure, authenticate_user, guesses,
}

-- Times in order, from `t` on and not after `last`.
abbrev pub Ordered : ℕ → ℕ → List ℕ → Type 0
Ordered t last [] = t ≤ last
Ordered t last (now ∷ rest) = (t ≤ now) × Ordered now last rest

abbrev lock_end : LoginUser → ℕ
lock_end user = elim user.locked_until [ none ↦ 0 | some t ↦ t ]

-- The guesses that are free before the lock.
abbrev left : LoginUser → ℕ
left user = 4 - user.failed_login_attempts

-- An attempt with a wrong password is refused before the comparison and changes nothing, or comes when
-- the account is not locked.
attempt :
    (verify : Bool) (now : ℕ) (rest : List ℕ) (user : LoginUser)
    → (guesses verify (now ∷ rest) user ≡ guesses verify rest user)
      ⊎ ((lock_end user ≤ now)
          × (guesses verify (now ∷ rest) user
              ≡ suc (guesses verify rest (record_failure now user))))
unfolding guesses authenticate_user is_locked
attempt verify now rest user = ground arith

Ordered-le : (t last : ℕ) (times : List ℕ) → Ordered t last times → t ≤ last
Ordered-le t last [] h = h
Ordered-le t last (now ∷ rest) h = omega (arith, h.0, Ordered-le now last rest h.1)

after_failure :
    (now : ℕ) (user : LoginUser)
    → ((suc (left (record_failure now user)) ≡ left user)
        × (lock_end (record_failure now user) ≡ lock_end user)
        × (user.failed_login_attempts < 4))
      ⊎ ((left (record_failure now user) ≡ 0)
          × (lock_end (record_failure now user) ≡ now + lockout)
          × (left user ≡ 0))
unfolding record_failure
after_failure now user = ground arith

no_attempts : (verify : Bool) (user : LoginUser) → guesses verify [] user ≡ 0
unfolding guesses
no_attempts verify user = refl

-- No guess at all, or as many as the free ones and the locks between `t`, or the end of a lock that
-- holds, and `last` leave room for.
abbrev Room : ℕ → ℕ → LoginUser → ℕ → Type 0
Room t last user n =
    (n ≡ 0)
    ⊎ ((n * lockout + t ≤ last + lockout + left user * lockout)
        × (n * lockout + lock_end user ≤ last + lockout + left user * lockout))

-- One guess more, before a guess in the room that its failure leaves.
one_more :
    (t now last n : ℕ) (user : LoginUser)
    → t ≤ now
    → now ≤ last
    → lock_end user ≤ now
    → Room now last (record_failure now user) n
    → Room t last user (suc n)
one_more t now last n user le_now le_last free room = elim (after_failure now user) [
  | inl (l, k, f) ↦ elim room [
    | inl z ↦ inr (omega (arith, z), omega (arith, z))
    | inr (a, b) ↦ inr (omega (arith, a, l), omega (arith, a, l))
  ]
  | inr (l, k, f) ↦ elim room [
    | inl z ↦ inr (omega (arith, z), omega (arith, z))
    | inr (a, b) ↦ inr (omega (arith, b, l, k), omega (arith, b, l, k))
  ]
]

guesses-Room :
    (verify : Bool) (t last : ℕ) (times : List ℕ) (user : LoginUser)
    → Ordered t last times
    → Room t last user (guesses verify times user)
guesses-Room verify t last [] user h = inl (no_attempts verify user)
guesses-Room verify t last (now ∷ rest) user h = elim (attempt verify now rest user) [
  | inl e ↦ rw e (elim (guesses-Room verify now last rest user h.1) [
    | inl z ↦ inl z
    | inr (a, b) ↦ inr (omega (arith, a, h.0), b)
  ])
  | inr (free, e) ↦ rw e (
      one_more t now last (guesses verify rest (record_failure now user)) user h.0
        (Ordered-le now last rest h.1) free
        (guesses-Room verify now last rest (record_failure now user) h.1))
]

-- Of any attempts with a wrong password, at times in order from `t` to `last`, whatever the state of
-- the account at the start, the password is compared in at most five and one for each full fifteen
-- minutes between.
pub guesses-le :
    (verify : Bool) (t last : ℕ) (times : List ℕ) (user : LoginUser)
    → Ordered t last times
    → guesses verify times user ≤ 5 + (last - t) / lockout
guesses-le verify t last times user h = elim (guesses-Room verify t last times user h) [
  | inl z ↦ omega (arith, z)
  | inr (a, b) ↦ omega (arith, a, Ordered-le t last times h)
]
