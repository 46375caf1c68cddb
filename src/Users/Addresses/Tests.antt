-- ===== src/Users/Addresses/Tests.antt =====
-- A book of one user, whose default is deleted.
use raycarwash_project.Base.{
  ℕ, ◌≡◌, refl, Bool, true, false, Option, none, List, [], ◌∷◌, arith, map, inr,
}
use raycarwash_project.Users.Defaults.Settled.{IsSettled}
use raycarwash_project.Users.Defaults.{
  get_by_id, insert_row, delete_row, count_active, first_active, soft_delete,
}
use raycarwash_project.Users.Addresses.{GeocodeQuery, AddressCreateRequest, Book, create, delete}
use raycarwash_project.Users.Addresses.Invariant.{
  Request, creates, deletes, serve_all, serve_all-IsSettled,
}

abbrev empty_book : Book ℕ
empty_book = record { table = record { next_id = 1; rows = [] }; coverage = []; audit = [] }

abbrev body : AddressCreateRequest
body = record {
  label = none;
  address = record {
    line1 = "1 Main St";
    line2 = none;
    city = "Fort Wayne";
    state = "IN";
    zip_code = "46802";
    country = "US";
  };
  notes = none;
  is_default = false;
  enforce_coverage_check = false;
}

abbrev requests : List Request
requests = creates 10 7 body ∷ creates 11 7 body ∷ creates 12 7 body ∷ deletes 13 7 1 ∷ []

abbrev no_place : GeocodeQuery → Option ℕ
no_place _ = none

defaults : Book ℕ → List (ℕ × Bool)
defaults b = map (λ r. (r.id, r.is_default)) b.table.rows

-- the older of the two that are left is promoted
promoted :
    defaults (serve_all no_place requests empty_book) ≡ (1, false) ∷ (2, true) ∷ (3, false) ∷ []
unfolding defaults delete get_by_id create insert_row delete_row count_active first_active
    soft_delete
promoted = refl

serve_all-IsSettled_example : IsSettled (serve_all no_place requests empty_book).table
serve_all-IsSettled_example =
    serve_all-IsSettled no_place requests empty_book (tt, (λ i. omega arith), (λ user. inr refl))
