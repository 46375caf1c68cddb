-- ===== src/Store/Frames.antt =====
-- What a step of a request leaves alone, and how a request is taken apart at its steps.
use raycarwash_project.Base.{◌≡◌, ◌≤◌, refl, sym, ap, ◌∙◌, subst, Option, none, some, arith}
use raycarwash_project.Store.{
  World, Error, Db, Result, ok, err, M, ◌>>=◌, pure, catch, or_raise, request,
}

-- A step that only reads.
abbrev pub Reads : {A : Type 0} → M A → Type 0
Reads m = (w : World) → (m w).1 ≡ w

module _ {A B : Type 0} (P : Result B × World → Type 0) where
  after_read :
      (t : Result A × World) (f : A → M B) (w : World)
      → t.1 ≡ w
      → ((e : Error) → P (err e, w))
      → ((a : A) → P (f a w))
      → P (elim t.0 [ ok a ↦ f a t.1 | err e ↦ (err e, t.1) ])
  after_read (ok a, w') f w e fails goes = rw e (goes a)
  after_read (err x, w') f w e fails goes = rw e (fails x)

  -- After a step that only reads, the request has failed or goes on in the same world.
  pub bind-Reads :
      (m : M A) (f : A → M B) (w : World)
      → Reads m
      → ((e : Error) → P (err e, w))
      → ((a : A) → P (f a w))
      → P ((m >>= f) w)
  unfolding ◌>>=◌
  bind-Reads m f w r fails goes = after_read (m w) f w (r w) fails goes

module _ {A : Type 0} where
  pub or_raise-Reads : (o : Option A) (e : Error) → Reads (or_raise o e)
  or_raise-Reads none e w = refl
  or_raise-Reads (some a) e w = refl

  -- A property of the tables that a handler keeps is kept by the request, rolled back or not.
  pub request-keeps {κ} :
      (P : Db → Type κ) (m : M A) (w : World) → P w.db → P (m w).1.db → P (request m w).1.db
  request-keeps P m w old new = after (m w) new
    where
      after :
          (t : Result A × World)
          → P t.1.db
          → P
              (elim t.0 as (λ _. Result A × World) [
                | ok a ↦ (ok a, t.1)
                | err e ↦ (err e, record t.1 { db = w.db })
              ]).1.db
      after (ok a, w') k = k
      after (err e, w') k = old

  calls_after :
      (t : Result A × World) (d : Db)
      → (elim t.0 as (λ _. Result A × World) [
        | ok a ↦ (ok a, t.1)
        | err e ↦ (err e, record t.1 { db = d })
      ]).1.stripe_calls
        ≡ t.1.stripe_calls
  calls_after (ok a, w') d = refl
  calls_after (err e, w') d = refl

  -- A roll-back takes back no call to Stripe.
  pub request-stripe_calls :
      (m : M A) (w : World) → (request m w).1.stripe_calls ≡ (m w).1.stripe_calls
  request-stripe_calls m w = calls_after (m w) w.db

-- The appointments are the same, and the counter has not gone back.
abbrev pub KeepsRows : World → World → Type 0
KeepsRows w w' = (w'.db.appointments ≡ w.db.appointments) × (w.db.next_id ≤ w'.db.next_id)

module _ {A B : Type 0} (R : World → Type 0) (P : Result B × World → Type 0) where
  after_keep :
      (t : Result A × World) (f : A → M B)
      → R t.1
      → ((e : Error) (w' : World) → R w' → P (err e, w'))
      → ((a : A) (w' : World) → R w' → P (f a w'))
      → P (elim t.0 [ ok a ↦ f a t.1 | err e ↦ (err e, t.1) ])
  after_keep (ok a, w') f k fails goes = goes a w' k
  after_keep (err x, w') f k fails goes = fails x w' k

  -- After a step that leaves a world in R, the request has failed or goes on in such a world.
  pub bind-Keeps :
      (m : M A) (f : A → M B) (w : World)
      → R (m w).1
      → ((e : Error) (w' : World) → R w' → P (err e, w'))
      → ((a : A) (w' : World) → R w' → P (f a w'))
      → P ((m >>= f) w)
  unfolding ◌>>=◌
  bind-Keeps m f w k fails goes = after_keep (m w) f k fails goes

module _ {A B : Type 0} where
  attempt_after :
      (t : Result A × World) (x y : B)
      → elim (elim t.0 as (λ _. Result B × World) [ ok a ↦ (ok x, t.1) | err e ↦ (err e, t.1) ]).0
          as (λ _. Result B × World) [
            | ok a ↦ (
              ok a,
              (elim t.0 as (λ _. Result B × World) [ ok a ↦ (ok x, t.1) | err e ↦ (err e, t.1) ]).1,
            )
            | err e ↦ (
              ok y,
              (elim t.0 as (λ _. Result B × World) [ ok a ↦ (ok x, t.1) | err e ↦ (err e, t.1) ]).1,
            )
          ]
        ≡ (elim t.0 [ ok a ↦ ok x | err e ↦ ok y ], t.1)
  attempt_after (ok a, w) x y = refl
  attempt_after (err e, w) x y = refl

  -- `try: m; x except: y` leaves the world that `m` leaves.
  pub attempt_lem :
      (m : M A) (x y : B) (w : World)
      → catch (m >>= (λ _. pure x)) (pure y) w
        ≡ (elim (m w).0 [ ok a ↦ ok x | err e ↦ ok y ], (m w).1)
  unfolding ◌>>=◌
  attempt_lem m x y w = attempt_after (m w) x y

module _ {A B : Type 0} where
  after_ok :
      (P : Result B × World → Type 0) (t : Result A × World) (a : A) (f : A → M B)
      → t.0 ≡ ok a
      → ((w' : World) → P (f a w'))
      → P (elim t.0 [ ok a ↦ f a t.1 | err e ↦ (err e, t.1) ])
  after_ok P t a f e goes = rw e (goes t.1)

  -- A step that is known to answer `a` hands it on.
  pub bind-ok :
      (P : Result B × World → Type 0) (m : M A) (a : A) (f : A → M B) (w : World)
      → (m w).0 ≡ ok a
      → ((w' : World) → P (f a w'))
      → P ((m >>= f) w)
  unfolding ◌>>=◌
  bind-ok P m a f w e goes = after_ok P (m w) a f e goes

  -- A step whose answer and world are known.
  pub bind-at :
      (P : Result B × World → Type 0) (m : M A) (a : A) (f : A → M B) (w w₁ : World)
      → m w ≡ (ok a, w₁)
      → P (f a w₁)
      → P ((m >>= f) w)
  unfolding ◌>>=◌
  bind-at P m a f w w₁ e goes =
      subst (λ t. P (elim t.0 as (λ _. Result B × World) [ ok a ↦ f a t.1 | err x ↦ (err x, t.1) ]))
        (sym e) goes

  -- A step that is known to raise.
  pub bind-err :
      (P : Result B × World → Type 0) (m : M A) (x : Error) (f : A → M B) (w w₁ : World)
      → m w ≡ (err x, w₁)
      → P (err x, w₁)
      → P ((m >>= f) w)
  unfolding ◌>>=◌
  bind-err P m x f w w₁ e goes =
      subst (λ t. P (elim t.0 as (λ _. Result B × World) [ ok a ↦ f a t.1 | err x ↦ (err x, t.1) ]))
        (sym e) goes

  split_ok :
      (t : Result A × World) (f : A → M B) (b : B) (w' : World)
      → elim t.0 as (λ _. Result B × World) [ ok a ↦ f a t.1 | err e ↦ (err e, t.1) ] ≡ (ok b, w')
      → (a : A) × (t₁ : World) × (t ≡ (ok a, t₁)) × (f a t₁ ≡ (ok b, w'))
  split_ok (ok a, t₁) f b w' h = (a, t₁, refl, h)
  split_ok (err e, t₁) f b w' h = absurd (ground (arith, h))

  -- Where the whole succeeds, so did the first step.
  pub bind-inverse :
      (m : M A) (f : A → M B) (w : World) (b : B) (w' : World)
      → (m >>= f) w ≡ (ok b, w')
      → (a : A) × (w₁ : World) × (m w ≡ (ok a, w₁)) × (f a w₁ ≡ (ok b, w'))
  unfolding ◌>>=◌
  bind-inverse m f w b w' h = split_ok (m w) f b w' h

  -- A first step that only reads has left the world alone.
  pub bind-inverse_Reads :
      (m : M A) (f : A → M B) (w : World) (b : B) (w' : World)
      → Reads m
      → (m >>= f) w ≡ (ok b, w')
      → (a : A) × (m w ≡ (ok a, w)) × (f a w ≡ (ok b, w'))
  bind-inverse_Reads m f w b w' r h =
      let (a, w₁, e, k) = bind-inverse m f w b w' h in
      let same : w₁ ≡ w = sym (ap (λ t. t.1) e) ∙ r w in
      (a, subst (λ v. m w ≡ (ok a, v)) same e, subst (λ v. f a v ≡ (ok b, w')) same k)
