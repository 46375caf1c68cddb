-- ===== src/Users/Addresses/Invariant.antt =====
-- Sequences of requests on the address book, and the default that every user with an address has.
use raycarwash_project.Base.{
  ℕ, ◌<◌, ◌≡◌, refl, inl, inr, true, not, ◌&&◌, Option, List, [], ◌∷◌, arith, ◌==◌, Bool-cases,
  Option-cases, All-update_where, find_where-true, update_where,
}
use raycarwash_project.Users.Defaults.{Row, active, default_of, wanted, get_by_id}
use raycarwash_project.Users.Defaults.Counts.{find_where-IsIn, count-update_where}
use raycarwash_project.Users.Defaults.Settled.{
  IsSettled, Unique-update_where, pivot_default-Settled, same_counts,
}
use raycarwash_project.Users.Defaults.Deletion.{delete_row-Settled, delete_row-Unique}
use raycarwash_project.Users.Defaults.Insertion.{
  pivot_default-Below, pivot_default-Unique, delete_row-Below, insert_row-IsSettled,
}
use raycarwash_project.Users.Addresses.{
  GeocodeQuery, UserAddress, AddressCreateRequest, AddressUpdateRequest, Book, set_default, delete,
  create, update, relocated, zip_covered,
}

pub data Request : Type 0 where
  creates : (now user : ℕ) → AddressCreateRequest → Request
  updates : (user id : ℕ) → AddressUpdateRequest → Request
  chooses : (user id : ℕ) → Request
  deletes : (now user id : ℕ) → Request

module _ {Place : Type 0} (geocode : GeocodeQuery → Option Place) where
  -- The book after a request.
  abbrev pub serve : Request → Book Place → Book Place
  serve (creates now user body) b = (create geocode now user body b).1
  serve (updates user id body) b = (update geocode user id body b).1
  serve (chooses user id) b = (set_default user id b).1
  serve (deletes now user id) b = (delete now user id b).1

  abbrev pub serve_all : List Request → Book Place → Book Place
  serve_all [] b = b
  serve_all (r ∷ rs) b = serve_all rs (serve r b)

  create-IsSettled :
      (now user : ℕ) (body : AddressCreateRequest) (b : Book Place)
      → IsSettled b.table
      → IsSettled (create geocode now user body b).1.table
  unfolding create
  create-IsSettled now user body b h =
      elim (Bool-cases
        (body.enforce_coverage_check && not (zip_covered body.address.zip_code b.coverage))) [
          | inl e ↦ rw (e, create) h
          | inr e ↦ rw (e, create) (insert_row-IsSettled now user body.is_default _ b.table h)
        ]

  update-IsSettled :
      (user id : ℕ) (body : AddressUpdateRequest) (b : Book Place)
      → IsSettled b.table
      → IsSettled (update geocode user id body b).1.table
  unfolding update
  update-IsSettled user id body b (below, unique, settled) =
      elim (Option-cases (get_by_id user id b.table.rows)) [
        | inl n ↦ rw (n, update) (below, unique, settled)
        | inr (row, e) ↦
            let f = λ (r : Row (UserAddress Place)). record r {
              content = relocated geocode body r.content;
            } in
            let q = λ (r : Row (UserAddress Place)). r.id == row.id in
            rw (e, update)
              (
                All-update_where (λ r. r.id < b.table.next_id) q f b.table.rows (λ r k. k) below,
                Unique-update_where q f b.table.rows (λ _. refl) unique,
                λ v.
                    same_counts v (update_where q f b.table.rows) b.table.rows
                      (count-update_where (default_of v) q f b.table.rows (λ _ _. refl))
                      (count-update_where (active v) q f b.table.rows (λ _ _. refl)) (settled v),
              )
      ]

  set_default-IsSettled :
      (user id : ℕ) (b : Book Place) → IsSettled b.table → IsSettled (set_default user id b).1.table
  unfolding set_default
  set_default-IsSettled user id b (below, unique, settled) =
      elim (Option-cases (get_by_id user id b.table.rows)) [
        | inl n ↦ rw (n, set_default) (below, unique, settled)
        | inr (row, e) ↦
            rw (e, set_default)
              (
                pivot_default-Below user id b.table.next_id b.table.rows below,
                pivot_default-Unique user id b.table.rows unique,
                λ v. pivot_default-Settled user id v b.table.rows row e unique (settled v),
              )
      ]

  delete-IsSettled :
      (now user id : ℕ) (b : Book Place)
      → IsSettled b.table
      → IsSettled (delete now user id b).1.table
  unfolding delete get_by_id
  delete-IsSettled now user id b (below, unique, settled) =
      elim (Option-cases (get_by_id user id b.table.rows)) [
        | inl n ↦ rw (n, delete) (below, unique, settled)
        | inr (row, e) ↦
            let at = find_where-IsIn (wanted user id) b.table.rows row e in
            let mine : active user row ≡ true =
              ground (arith, find_where-true (wanted user id) b.table.rows row e) in
            rw (e, delete)
              (
                delete_row-Below user now b.table.next_id row b.table.rows below,
                delete_row-Unique user now row b.table.rows at mine unique,
                λ v.
                    delete_row-Settled user now row b.table.rows at mine unique v (settled user)
                      (settled v),
              )
      ]

  serve-IsSettled : (r : Request) (b : Book Place) → IsSettled b.table → IsSettled (serve r b).table
  serve-IsSettled (creates now user body) b h = create-IsSettled now user body b h
  serve-IsSettled (updates user id body) b h = update-IsSettled user id body b h
  serve-IsSettled (chooses user id) b h = set_default-IsSettled user id b h
  serve-IsSettled (deletes now user id) b h = delete-IsSettled now user id b h

  -- With distinct keys below the counter: if every user either has exactly one default address or no
  -- address, that is so after any sequence of requests that create, edit, choose and delete
  -- addresses, whether they succeed or fail.
  pub serve_all-IsSettled :
      (rs : List Request) (b : Book Place) → IsSettled b.table → IsSettled (serve_all rs b).table
  serve_all-IsSettled [] b h = h
  serve_all-IsSettled (r ∷ rs) b h = serve_all-IsSettled rs (serve r b) (serve-IsSettled r b h)
