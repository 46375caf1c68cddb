-- ===== src/Auth/StepUp/Recent.antt =====
-- What the cache and the column answer together after any number of authentications.
use raycarwash_project.Base.{
  ℕ, ◌+◌, ◌*◌, ◌≤◌, ◌≡◌, refl, sym, ◌∙◌, ap, ◌⊎◌, inl, inr, true, Option, none, some, List, [], ◌∷◌,
  arith, ◌==◌, if◌then◌else◌, Bool-cases, ltb,
}
use raycarwash_project.Store.{http, ok, err}
use raycarwash_project.Auth.StepUp.{
  Reply, raised, missing, unreadable, text, RedisClient, StepUpState, later_than_threshold,
  recent_in_cache, recent_in_column, set_cached, get_cached, mark_step_up, is_step_up_recent,
  require_step_up,
}

-- a successful authentication: its user and its time
pub record Mark : Type 0 where
  pub user : ℕ
  pub time : ℕ

-- The time goes forward.
abbrev pub Ordered : ℕ → List Mark → Type 0
Ordered from [] = Unit
Ordered from (m ∷ ms) = (from ≤ m.time) × Ordered m.time ms

abbrev pub or_else : Option ℕ → Option ℕ → Option ℕ
or_else (some t) _ = some t
or_else none o = o

abbrev pub last_mark : ℕ → List Mark → Option ℕ
last_mark user [] = none
last_mark user (m ∷ ms) = or_else (last_mark user ms) (if user == m.user then some m.time else none)

or_else_assoc : (a b c : Option ℕ) → or_else (or_else a b) c ≡ or_else a (or_else b c)
or_else_assoc (some t) b c = refl
or_else_assoc none b c = refl

or_else-none : (a : Option ℕ) → or_else a none ≡ a
or_else-none (some t) = refl
or_else-none none = refl

module _ {R : Type 0} (client : RedisClient R) where
  -- A GET answers a key with a value that was SET for it, if with any.
  abbrev pub Keeps : Type 0
  Keeps =
      (now user value seconds asked t : ℕ) (r : R)
      → client.get now asked (client.set user value seconds r) ≡ text t
      → ((asked ≡ user) × (t ≡ value)) ⊎ (client.get now asked r ≡ text t)

  -- No value is in the cache, and no time in the column.
  abbrev pub Unmarked : StepUpState R → Type 0
  Unmarked s =
      ((now user t : ℕ) → ¬ (get_cached client now user s.redis ≡ text t))
      × ((user : ℕ) → s.last_step_up_at user ≡ none)

  -- What the cache answers, the column knows; and no time in the column is later than `top`.
  abbrev Covered : ℕ → StepUpState R → Type 0
  Covered top s =
      ((now user t : ℕ)
        → get_cached client now user s.redis ≡ text t
        → (c : ℕ) × ((s.last_step_up_at user ≡ some c) × (t ≤ c)))
      × ((user c : ℕ) → s.last_step_up_at user ≡ some c → c ≤ top)

module _ {R : Type 0} (client : RedisClient R) (minutes : ℕ) where
  -- The state after the authentications of a list, one after the other.
  abbrev pub mark_all : List Mark → StepUpState R → StepUpState R
  mark_all [] s = s
  mark_all (m ∷ ms) s = mark_all ms (mark_step_up client minutes m.time m.user s)

  get_cached-set_cached :
      (now user asked t clock : ℕ) (o : Option R)
      → Keeps client
      → get_cached client clock asked (set_cached client minutes now user o) ≡ text t
      → ((asked ≡ user) × (t ≡ now)) ⊎ (get_cached client clock asked o ≡ text t)
  get_cached-set_cached now user asked t clock none keeps h = inr h
  get_cached-set_cached now user asked t clock (some r) keeps h =
      keeps clock user now (minutes * 60) asked t r h

  mark-Covered :
      (top now user : ℕ) (s : StepUpState R)
      → Keeps client
      → top ≤ now
      → Covered client top s
      → Covered client now (mark_step_up client minutes now user s)
  unfolding mark_step_up
  mark-Covered top now user s keeps later (cached, below) = (
    λ clock asked t h. elim (get_cached-set_cached now user asked t clock s.redis keeps h) [
      | inl (same, time) ↦ (now, (ground (arith, same), omega (arith, time)))
      | inr old ↦ elim (Bool-cases (asked == user)) [
        | inl e ↦
            let (c, (there, le)) = cached clock asked t old in
            (now, (rw e refl, omega (arith, le, below asked c there, later)))
        | inr e ↦ rw e (cached clock asked t old)
      ]
    ],
    λ asked c h. elim (Bool-cases (asked == user)) [
      | inl e ↦ ground (arith, rw e at h)
      | inr e ↦ omega (arith, below asked c (rw e at h), later)
    ],
  )

  mark_all-Covered :
      (from : ℕ) (marks : List Mark) (s : StepUpState R)
      → Keeps client
      → Ordered from marks
      → Covered client from s
      → (top : ℕ) × Covered client top (mark_all marks s)
  mark_all-Covered from [] s keeps ordered h = (from, h)
  mark_all-Covered from (m ∷ ms) s keeps ordered h =
      mark_all-Covered m.time ms (mark_step_up client minutes m.time m.user s) keeps ordered.1
        (mark-Covered from m.time m.user s keeps ordered.0 h)

  marked :
      (user : ℕ) (m : Mark) (o : Option ℕ)
      → or_else (if user == m.user then some m.time else none) o
        ≡ (if user == m.user then some m.time else o)
  marked user m o = elim (Bool-cases (user == m.user)) [ inl e ↦ rw e refl | inr e ↦ rw e refl ]

  column-mark_all :
      (user : ℕ) (marks : List Mark) (s : StepUpState R)
      → (mark_all marks s).last_step_up_at user
        ≡ or_else (last_mark user marks) (s.last_step_up_at user)
  unfolding mark_step_up
  column-mark_all user [] s = refl
  column-mark_all user (m ∷ ms) s =
      column-mark_all user ms (mark_step_up client minutes m.time m.user s)
      ∙ ap (or_else (last_mark user ms)) (sym (marked user m (s.last_step_up_at user)))
      ∙ sym (
          or_else_assoc (last_mark user ms) (if user == m.user then some m.time else none)
            (s.last_step_up_at user))

  cache_first :
      (now user : ℕ) (reply : Reply) (column : Option ℕ)
      → ((t : ℕ) → reply ≡ text t → (c : ℕ) × ((column ≡ some c) × (t ≤ c)))
      → (if recent_in_cache minutes now reply then true else recent_in_column minutes now column)
        ≡ recent_in_column minutes now column
  cache_first now user raised column h = refl
  cache_first now user missing column h = refl
  cache_first now user unreadable column h = refl
  cache_first now user (text t) column h = elim (Bool-cases (later_than_threshold minutes now t)) [
    | inl e ↦
        let (c, (there, le)) = h t refl in
        let later : ltb now (c + minutes * 60000000) ≡ true = ground (arith, e, le) in
        rw (e, there) (sym later)
    | inr e ↦ rw e refl
  ]

  -- With nothing marked at first, a time that goes forward, and a cache that answers a key with what was
  -- set for it, if with anything: after any successful authentications that commit, a step-up passes exactly when the
  -- user's last one is less than the window ago, and raises 401 otherwise. An outage, an eviction or an
  -- unreadable answer of the cache changes nothing.
  pub require_step_up-mark_all :
      (now user : ℕ) (marks : List Mark) (s : StepUpState R)
      → Keeps client
      → Unmarked client s
      → Ordered 0 marks
      → require_step_up client minutes now user (mark_all marks s)
        ≡ (if recent_in_column minutes now (last_mark user marks) then ok user else err (http 401))
  unfolding require_step_up is_step_up_recent
  require_step_up-mark_all now user marks s keeps (empty, unset) ordered =
      let (top, (cached, below)) = mark_all-Covered 0 marks s keeps ordered (
        λ clock asked t h. absurd (empty clock asked t h),
        λ asked c h. absurd (ground (arith, h, unset asked)),
      ) in
      let column : (mark_all marks s).last_step_up_at user ≡ last_mark user marks =
        column-mark_all user marks s
        ∙ ap (or_else (last_mark user marks)) (unset user)
        ∙ or_else-none (last_mark user marks) in
      ap (λ b. if b then ok user else err (http 401))
        (cache_first now user (get_cached client now user (mark_all marks s).redis)
            ((mark_all marks s).last_step_up_at user) (cached now user)
          ∙ ap (recent_in_column minutes now) column)
