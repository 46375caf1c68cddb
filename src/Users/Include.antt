-- ===== src/Users/Include.antt =====
-- IncludeSpec.parse of backend/domains/users/include_spec.py. A text is its code points; a set of
-- tokens is its test.
mod RoundTrip
mod Tests
use raycarwash_project.Base.{
  ℕ, Bool, true, false, not, ◌&&◌, ◌||◌, Option, none, some, List, [], ◌∷◌, ◌==◌, any, find_where,
  if◌then◌else◌, same_codes,
}
use raycarwash_project.Catalog.{codes, strip}

-- ALL_TOKENS
pub data Token : Type 0 where
  profile stats addresses payment_methods notifications security sessions : Token
  vehicles favorites preferences : Token
  provider : Token

abbrev pub all_tokens : List Token
all_tokens =
    profile ∷ stats ∷ addresses ∷ payment_methods ∷ notifications ∷ security ∷ sessions ∷ vehicles
    ∷ favorites ∷ preferences ∷ provider ∷ []

abbrev pub token_name : Token → List ℕ
token_name profile = codes "profile"
token_name stats = codes "stats"
token_name addresses = codes "addresses"
token_name payment_methods = codes "payment_methods"
token_name notifications = codes "notifications"
token_name security = codes "security"
token_name sessions = codes "sessions"
token_name vehicles = codes "vehicles"
token_name favorites = codes "favorites"
token_name preferences = codes "preferences"
token_name provider = codes "provider"

-- the roles of a caller that the tokens ask for
pub record Roles : Type 0 where
  pub is_client : Bool
  pub is_detailer : Bool
  pub is_admin : Bool

abbrev pub is_client_token : Token → Bool
is_client_token vehicles = true
is_client_token favorites = true
is_client_token preferences = true
is_client_token _ = false

abbrev pub is_detailer_token : Token → Bool
is_detailer_token provider = true
is_detailer_token _ = false

abbrev pub is_sensitive : Token → Bool
is_sensitive security = true
is_sensitive sessions = true
is_sensitive _ = false

abbrev pub grants : Roles → Token → Bool
grants roles t =
    if is_client_token t
    then roles.is_client
    else if is_detailer_token t
    then roles.is_detailer || roles.is_admin
    else true

abbrev pub TokenSet : Type 0
TokenSet = Token → Bool

abbrev pub same_token : Token → Token → Bool
same_token t u = same_codes (token_name t) (token_name u)

-- `raw.split(",")`
abbrev pub put_first : ℕ → List (List ℕ) → List (List ℕ)
put_first c [] = (c ∷ []) ∷ []
put_first c (part ∷ parts) = (c ∷ part) ∷ parts

abbrev pub split_commas : List ℕ → List (List ℕ)
split_commas [] = [] ∷ []
split_commas (c ∷ s) =
    let rest = split_commas s in if c == b',' then [] ∷ rest else put_first c rest

-- the whitelist
unfoldable pub find_token : List ℕ → Option Token
find_token name = find_where (λ t. same_codes (token_name t) name) all_tokens

pub data Parsed (A : Type 0) : Type 0 where
  parsed : A → Parsed A
  bad_include_token : List ℕ → Parsed A

abbrev pub add_token : List ℕ → Option Token → Parsed TokenSet → Parsed TokenSet
add_token name none rest = bad_include_token name
add_token name (some t) (bad_include_token other) = bad_include_token other
add_token name (some t) (parsed set) = parsed (λ u. same_token t u || set u)

abbrev pub collect_part : List ℕ → Parsed TokenSet → Parsed TokenSet
collect_part [] rest = rest
collect_part (c ∷ name) rest = add_token (c ∷ name) (find_token (c ∷ name)) rest

-- the loop over the parts: the first unknown token raises
abbrev pub collect : List (List ℕ) → Parsed TokenSet
collect [] = parsed (λ _. false)
collect (part ∷ parts) = collect_part (strip part) (collect parts)

pub record IncludeSpec : Type 0 where
  pub requested : TokenSet
  pub effective : TokenSet
  pub skipped_for_role : TokenSet
  pub sensitive : TokenSet

abbrev pub spec_for : Roles → Parsed TokenSet → Parsed IncludeSpec
spec_for roles (bad_include_token name) = bad_include_token name
spec_for roles (parsed set) = parsed (record {
  requested = set;
  effective = λ t. set t && grants roles t;
  skipped_for_role = λ t. set t && not (grants roles t);
  sensitive = λ t. set t && (grants roles t && is_sensitive t);
})

abbrev pub text_of : Option (List ℕ) → List ℕ
text_of none = []
text_of (some raw) = raw

-- an absent or empty value asks for nothing
unfoldable pub parse : Option (List ℕ) → Roles → Parsed IncludeSpec
parse raw roles = spec_for roles (collect (split_commas (text_of raw)))
