-- ===== src/Users/Addresses.antt =====
-- AddressService of backend/domains/users/address_service.py over user_addresses and coverage_zips.
-- The geocoding adapter is a parameter: the place of a query, a pair of coordinates with its cell,
-- none when the adapter finds nothing or fails, which the code treats alike. Requests are validated
-- and normalized before.
mod Invariant
mod Tests
use Prim.Native.String.{String}
use text.Mathlib.Text.{◌==◌ as str_eq}
use raycarwash_project.Base.{
  ℕ, Bool, true, false, not, ◌&&◌, ◌||◌, Option, none, some, List, [], ◌∷◌, ◌++◌, ◌==◌,
  if◌then◌else◌, any, find_where, select_where, update_where,
}
use raycarwash_project.Store.{Error, http, Result, ok, err}
use raycarwash_project.Users.Defaults.{
  Row, Table, active, get_by_id, count_active, pivot_default, delete_row, insert_row,
}

-- the columns that the adapter reads
pub record GeocodeQuery : Type 0 where
  pub line1 : String
  pub line2 : Option String
  pub city : String
  pub state : String
  pub zip_code : String
  pub country : String

pub record UserAddress (Place : Type 0) : Type 0 where
  pub label : Option String
  pub where_to : GeocodeQuery
  pub place : Option Place
  pub notes : Option String

pub record CoverageZip : Type 0 where
  pub zip : String
  pub is_active : Bool
  pub is_deleted : Bool

pub record AddressCreateRequest : Type 0 where
  pub label : Option String
  pub address : GeocodeQuery
  pub notes : Option String
  pub is_default : Bool
  pub enforce_coverage_check : Bool

pub record AddressUpdateRequest : Type 0 where
  pub label : Option String
  pub line1 : Option String
  pub line2 : Option String
  pub city : Option String
  pub state : Option String
  pub zip_code : Option String
  pub country : Option String
  pub notes : Option String

pub data AddressAudit : Type 0 where
  address_added : ℕ → ℕ → AddressAudit
  address_updated : ℕ → ℕ → AddressAudit
  default_chosen : ℕ → ℕ → AddressAudit
  address_removed : ℕ → ℕ → (was_default : Bool) → AddressAudit

pub record Book (Place : Type 0) : Type 0 where
  pub table : Table (UserAddress Place)
  pub coverage : List CoverageZip
  pub audit : List AddressAudit

-- `value if value is not None else old`
abbrev pub replace : Option String → String → String
replace none old = old
replace (some value) old = value

abbrev pub replace_optional : Option String → Option String → Option String
replace_optional none old = old
replace_optional (some value) old = some value

abbrev pub is_given : Option String → Bool
is_given none = false
is_given (some _) = true

abbrev pub has_geocodable_change : AddressUpdateRequest → Bool
has_geocodable_change body =
    is_given body.line1
    || (is_given body.line2
        || (is_given body.city
            || (is_given body.state || (is_given body.zip_code || is_given body.country))))

unfoldable pub zip_covered : String → List CoverageZip → Bool
zip_covered zip zones = any (λ z. str_eq z.zip zip && (not z.is_deleted && z.is_active)) zones

module _ {Place : Type 0} where
  abbrev pub edited : AddressUpdateRequest → UserAddress Place → UserAddress Place
  edited body a = record {
    label = replace_optional body.label a.label;
    where_to = record {
      line1 = replace body.line1 a.where_to.line1;
      line2 = replace_optional body.line2 a.where_to.line2;
      city = replace body.city a.where_to.city;
      state = replace body.state a.where_to.state;
      zip_code = replace body.zip_code a.where_to.zip_code;
      country = replace body.country a.where_to.country;
    };
    place = a.place;
    notes = replace_optional body.notes a.notes;
  }

  abbrev pub audited : AddressAudit → Book Place → Book Place
  audited entry b = record b { audit = b.audit ++ (entry ∷ []) }

  abbrev pub with_rows : List (Row (UserAddress Place)) → Book Place → Book Place
  with_rows rows b = record b { table = record b.table { rows = rows } }

  -- the insertion: the first address is the default whatever the request says
  abbrev pub insert_address : ℕ → ℕ → Bool → UserAddress Place → Book Place → Book Place
  insert_address now user asked content b =
      let t = insert_row now user asked content b.table in
      audited (address_added b.table.next_id user) (record b { table = t })

  unfoldable pub set_default : ℕ → ℕ → Book Place → Result (Unit {0}) × Book Place
  set_default user id b = elim (get_by_id user id b.table.rows) [
    | none ↦ (err (http 404), b)
    | some _ ↦
        (ok tt, audited (default_chosen id user) (with_rows (pivot_default user id b.table.rows) b))
  ]

  -- The audit entry reads is_default after the deletion has cleared it.
  unfoldable pub delete : ℕ → ℕ → ℕ → Book Place → Result (Unit {0}) × Book Place
  delete now user id b = elim (get_by_id user id b.table.rows) [
    | none ↦ (err (http 404), b)
    | some row ↦ (
      ok tt,
      audited (address_removed id user false) (with_rows (delete_row user row now b.table.rows) b),
    )
  ]

  module _ (geocode : GeocodeQuery → Option Place) where
    unfoldable pub create :
        ℕ → ℕ → AddressCreateRequest → Book Place → Result (Unit {0}) × Book Place
    create now user body b =
        if body.enforce_coverage_check && not (zip_covered body.address.zip_code b.coverage)
        then (err (http 422), b)
        else (
          ok tt,
          insert_address now user body.is_default
              (record {
                label = body.label;
                where_to = body.address;
                place = geocode body.address;
                notes = body.notes;
              })
              b,
        )

    abbrev pub relocated : AddressUpdateRequest → UserAddress Place → UserAddress Place
    relocated body a =
        let e = edited body a in
        if has_geocodable_change body then record e { place = geocode e.where_to } else e

    unfoldable pub update :
        ℕ → ℕ → AddressUpdateRequest → Book Place → Result (Unit {0}) × Book Place
    update user id body b = elim (get_by_id user id b.table.rows) [
      | none ↦ (err (http 404), b)
      | some row ↦ (
        ok tt,
        audited (address_updated id user) (
            with_rows
              (update_where (λ r. r.id == row.id)
                (λ r. record r { content = relocated body r.content }) b.table.rows)
              b),
      )
    ]
