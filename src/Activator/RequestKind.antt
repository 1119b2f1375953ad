-- ===== src/Activator/RequestKind.antt =====
-- isNavigationRequest, apps/activator/src/request-kind.ts.
use dnd_notes.Common.{
  ℕ, ◌-◌, String, Bool, true, false, ◌&&◌, ◌||◌, not, Option, none, some, List, [], ◌∷◌, map, ◌==◌,
  ◌=ℕ◌, leb, if◌then◌else◌, codes, same_codes, or_else, is_some,
}

-- A header of Node's IncomingHttpHeaders: missing, one text, or several.
pub data Header : Type 0 where
  missing : Header
  one : String → Header
  several : List String → Header

pub record Request : Type 0 where
  pub method : Option String
  pub sec_fetch_mode : Header
  pub x_requested_with : Header
  pub accept : Header

abbrev pub first_header : Header → Option String
first_header missing = none
first_header (one value) = some value
first_header (several []) = none
first_header (several (value ∷ rest)) = some value

abbrev to_upper : ℕ → ℕ
to_upper c = if leb b'a' c && leb c b'z' then c - 32 else c

abbrev begins : List ℕ → List ℕ → Bool
begins [] text = true
begins (c ∷ part) [] = false
begins (c ∷ part) (d ∷ text) = c =ℕ d && begins part text

abbrev pub includes : List ℕ → List ℕ → Bool
includes part [] = begins part []
includes part (d ∷ text) = begins part (d ∷ text) || includes part text

-- The rule for a client that sends no Sec-Fetch-Mode.
abbrev pub looks_like_navigation : Request → Bool
looks_like_navigation req =
    same_codes (map to_upper (codes (or_else req.method "GET"))) (codes "GET")
    && not (is_some (first_header req.x_requested_with))
    && includes (codes "text/html") (codes (or_else (first_header req.accept) ""))

abbrev pub by_mode : Option String → Request → Bool
by_mode none req = looks_like_navigation req
by_mode (some mode) req = mode == "navigate"

unfoldable pub is_navigation_request : Request → Bool
is_navigation_request req = by_mode (first_header req.sec_fetch_mode) req
