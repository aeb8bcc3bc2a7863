-- ===== src/Routes.antt =====
-- The routes of the network functions (cmd/smf/main.go, cmd/amf/main.go, cmd/udm/main.go,
-- cmd/upf/main.go), as `http.ServeMux` reads their patterns. A path is its segments; the theorems are on paths without `%`.
pub mod Laws
mod Tests
use pdu_session_sim.Common.{
  ℕ, List, [], ◌∷◌, ◌++◌, Bool, true, false, ◌||◌, ◌&&◌, not, Option, none, some, Text, text,
  text_eq, text_beq, nat_eq, ◌==◌, if◌then◌else◌,
}
use pdu_session_sim.Http.{get_method, post_method}

-- A text before its first `?` or `#`, cut at each `/`.
abbrev pub push : ℕ → List Text → List Text
push c [] = (c ∷ []) ∷ []
push c (first ∷ rest) = (c ∷ first) ∷ rest

unfoldable pub segments : Text → List Text
segments [] = [] ∷ []
segments (c ∷ rest) =
    let after = segments rest in
    if c == b'?' || c == b'#' then [] ∷ [] else if c == b'/' then [] ∷ after else push c after

-- The path of a URL: after the scheme, nothing, and the host.
abbrev pub after_host : List Text → List Text
after_host (scheme ∷ nothing ∷ host ∷ path) = path
after_host _ = []

unfoldable pub path_of : Text → List Text
unfolding segments
path_of url = after_host (segments url)

pub data Piece : Type 0 where
  literal : Text → Piece
  wildcard : Piece

-- A pattern that ends with `/` stands for all paths below it.
pub record Pattern : Type 0 where
  pub method : Text
  pub pieces : List Piece
  pub below : Bool

-- The values of a pattern's wildcards; a wildcard takes one segment that is not empty.
unfoldable pub match_pieces : Bool → List Piece → List Text → Option (List Text)
unfolding text_beq
match_pieces below [] [] = if below then none else some []
match_pieces below [] (segment ∷ path) = if below then some [] else none
match_pieces below (piece ∷ pieces) [] = none
match_pieces below (literal name ∷ pieces) (segment ∷ path) =
    let rest = match_pieces below pieces path in if name == segment then rest else none
match_pieces below (wildcard ∷ pieces) (segment ∷ path) =
    let rest = match_pieces below pieces path in
    if segment == []
    then none
    else (elim rest [ none ↦ none | some values ↦ some (segment ∷ values) ])

-- A pattern with `GET` also takes `HEAD`.
abbrev pub takes_method : Pattern → Text → Bool
takes_method p method = p.method == method || (p.method == get_method && method == text "HEAD")

pub data Outcome (H : Type 0) : Type 0 where
  handled : H → List Text → Outcome H
  redirected method_not_allowed not_found : Outcome H

-- The mux redirects a path with an empty segment, `.` or `..`, but for the `/` at its end.
unfoldable pub is_clean : List Text → Bool
unfolding text_beq
is_clean [] = true
is_clean (last ∷ []) = not (last == text "." || last == text "..")
is_clean (segment ∷ next ∷ path) =
    let rest = is_clean (next ∷ path) in
    if segment == [] || segment == text "." || segment == text ".." then false else rest

abbrev pub or_method_not_allowed : {H : Type 0} → Outcome H → Outcome H
or_method_not_allowed not_found = method_not_allowed
or_method_not_allowed outcome = outcome

-- The first route that takes the path and the method. No two patterns of a table below take the same
-- request, but for the dashboard's stream, which stands before the files as it is more specific.
unfoldable pub choose : {H : Type 0} → List (Pattern × H) → Text → List Text → Outcome H
unfolding match_pieces text_beq
choose [] method path = not_found
choose ((p, handler) ∷ routes) method path =
    let rest = choose routes method path in
    elim (match_pieces p.below p.pieces path) [
      | none ↦ rest
      | some values ↦
          if takes_method p method then handled handler values else or_method_not_allowed rest
    ]

-- A path that no pattern takes is redirected to the same path with `/` at its end, if that is taken.
abbrev pub with_slash : {H : Type 0} → Outcome H → Outcome H
with_slash (handled handler values) = redirected
with_slash outcome = outcome

abbrev pub or_with_slash : {H : Type 0} → Outcome H → Outcome H → Outcome H
or_with_slash not_found slashed = with_slash slashed
or_with_slash outcome slashed = outcome

unfoldable pub dispatch : {H : Type 0} → List (Pattern × H) → Text → List Text → Outcome H
unfolding choose is_clean
dispatch routes method path =
    if is_clean path
    then or_with_slash (choose routes method path) (choose routes method (path ++ ([] ∷ [])))
    else redirected

abbrev pub get : List Piece → Pattern
get pieces = record { method = get_method; pieces = pieces; below = false }

abbrev pub post : List Piece → Pattern
post pieces = record { method = post_method; pieces = pieces; below = false }

pub data SmfRoute : Type 0 where
  smf_health create_sm_context update_sm_context trigger_proxy get_sessions get_stats : SmfRoute
  dashboard_stream dashboard_files : SmfRoute

abbrev pub sm_contexts : List Piece → List Piece
sm_contexts rest =
    literal (text "nsmf-pdusession") ∷ literal (text "v1") ∷ literal (text "sm-contexts") ∷ rest

abbrev pub smf_routes : List (Pattern × SmfRoute)
smf_routes =
    (get (literal (text "health") ∷ []), smf_health)
    ∷ (post (sm_contexts []), create_sm_context)
    ∷ (post (sm_contexts (wildcard ∷ literal (text "modify") ∷ [])), update_sm_context)
    ∷ (post (literal (text "api") ∷ literal (text "trigger") ∷ []), trigger_proxy)
    ∷ (get (literal (text "api") ∷ literal (text "sessions") ∷ []), get_sessions)
    ∷ (get (literal (text "api") ∷ literal (text "stats") ∷ []), get_stats)
    ∷ (get (literal (text "dashboard") ∷ literal (text "stream") ∷ []), dashboard_stream)
    ∷ (
      record { method = get_method; pieces = literal (text "dashboard") ∷ []; below = true },
      dashboard_files,
    )
    ∷ []

pub data AmfRoute : Type 0 where
  amf_health trigger_establishment receive_n1n2_callback : AmfRoute

abbrev pub amf_routes : List (Pattern × AmfRoute)
amf_routes =
    (get (literal (text "health") ∷ []), amf_health)
    ∷ (post (literal (text "trigger") ∷ []), trigger_establishment)
    ∷ (
      post (
          literal (text "namf-comm")
          ∷ literal (text "v1")
          ∷ literal (text "ue-context")
          ∷ wildcard
          ∷ literal (text "n1-n2-messages")
          ∷ []),
      receive_n1n2_callback,
    )
    ∷ []

pub data UdmRoute : Type 0 where
  udm_health get_subscription_data : UdmRoute

abbrev pub udm_routes : List (Pattern × UdmRoute)
udm_routes =
    (get (literal (text "health") ∷ []), udm_health)
    ∷ (
      get (
          literal (text "nudm-sdm")
          ∷ literal (text "v2")
          ∷ wildcard
          ∷ literal (text "sm-data")
          ∷ []),
      get_subscription_data,
    )
    ∷ []

pub data UpfRoute : Type 0 where
  upf_health : UpfRoute

abbrev pub upf_routes : List (Pattern × UpfRoute)
upf_routes = (get (literal (text "health") ∷ []), upf_health) ∷ []
