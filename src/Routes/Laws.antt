-- ===== src/Routes/Laws.antt =====
-- Each call between the network functions finds its handler.
use pdu_session_sim.Common.{
  ℕ, ◌≡◌, ◌≢◌, refl, ap, ◌∙◌, [], ◌∷◌, ◌++◌, false, Text, text, text_eq, text_beq, nat_eq, ==_iff,
  All, All-append_iff, All-map_imp, ◌≤◌, ◌<◌, ◌^◌, ◌⊎◌, arith, ◌==◌,
}
use pdu_session_sim.Amf
use pdu_session_sim.Amf.{modify_url, create_url}
use pdu_session_sim.Decimal.{decimal}
use pdu_session_sim.Decimal.Laws.{decimal-AreDigits}
use pdu_session_sim.Http.{get_method, post_method}
use pdu_session_sim.Routes.{
  segments, path_of, after_host, dispatch, is_clean, choose, match_pieces, handled, smf_routes,
  amf_routes, udm_routes, create_sm_context, update_sm_context, trigger_establishment,
  receive_n1n2_callback, get_subscription_data,
}
use pdu_session_sim.Smf.Handler.{trigger_url, context_ref}
use pdu_session_sim.Smf.Orchestrator.Establishment.{udm_url, amf_url}

-- A visible character of ASCII that stands for itself in a path, and ends neither a segment nor a path.
pub record IsPlain (c : ℕ) : Type 0 where
  pub no_slash : c ≢ b'/'
  pub no_query : c ≢ b'?'
  pub no_fragment : c ≢ b'#'
  pub no_percent : c ≢ b'%'
  pub above_space : b' ' < c
  pub below_delete : c < 127

-- A letter, a digit, a dash or a dot.
abbrev pub IsHostChar : ℕ → Type 0
IsHostChar c =
    ((b'a' ≤ c) × (c ≤ b'z'))
    ⊎ ((b'A' ≤ c) × (c ≤ b'Z'))
    ⊎ ((b'0' ≤ c) × (c ≤ b'9'))
    ⊎ (c ≡ b'-')
    ⊎ (c ≡ b'.')

-- A host's name and its port.
abbrev pub host_port : Text → ℕ → Text
host_port name port = name ++ (b':' ∷ decimal port)

-- A text that is one segment of a path and stays it.
pub record IsSegment (t : Text) : Type 0 where
  pub plain : All IsPlain t
  pub given : t ≢ []
  pub no_dot : t ≢ text "."
  pub no_dots : t ≢ text ".."

digit-IsPlain : (c : ℕ) → (b'0' ≤ c) × (c ≤ b'9') → IsPlain c
digit-IsPlain c (low, high) = record {
  no_slash = λ e. omega (arith, e);
  no_query = λ e. omega (arith, e);
  no_fragment = λ e. omega (arith, e);
  no_percent = λ e. omega (arith, e);
  above_space = omega arith;
  below_delete = omega arith;
}

host-IsPlain : (c : ℕ) → IsHostChar c → IsPlain c
host-IsPlain c h = ground (arith, h)

host_port-IsPlain :
    (name : Text) (port : ℕ) → All IsHostChar name → All IsPlain (host_port name port)
host_port-IsPlain name port plain =
    let digits = All-map_imp (decimal port) digit-IsPlain (decimal-AreDigits port) in
    (All-append_iff IsPlain name (b':' ∷ decimal port)).1
      (All-map_imp name host-IsPlain plain, (ground arith, digits))

-- Every reference that the SMF gives out is a segment.
pub context_ref-IsSegment : (nanos counter : ℕ) → IsSegment (context_ref nanos counter)
unfolding context_ref
context_ref-IsSegment nanos counter =
    let digits : (n : ℕ) → All IsPlain (decimal n) =
      λ n. All-map_imp (decimal n) digit-IsPlain (decimal-AreDigits n) in
    let dash : IsPlain b'-' = record {
      no_slash = λ e. omega (arith, e);
      no_query = λ e. omega (arith, e);
      no_fragment = λ e. omega (arith, e);
      no_percent = λ e. omega (arith, e);
      above_space = omega arith;
      below_delete = omega arith;
    } in
    let smctx : All IsPlain (text "smctx-") = ground arith in
    record {
      plain = (All-append_iff IsPlain (text "smctx-") _).1 (
        smctx,
        (All-append_iff IsPlain (decimal nanos) _).1 (digits nanos, (dash, digits counter)),
      );
      given = λ e. ground (arith, e);
      no_dot = λ e. ground (arith, e);
      no_dots = λ e. ground (arith, e);
    }

segments-append :
    (t rest : Text) → All IsPlain t → segments (t ++ (b'/' ∷ rest)) ≡ t ∷ segments rest
unfolding segments
segments-append [] rest plain = refl
segments-append (c ∷ t) rest (p, plain) =
    ground (arith, segments-append t rest plain, p.no_slash, p.no_query, p.no_fragment)

pub udm_url-path :
    (imsi : Text)
    → IsSegment imsi
    → path_of (udm_url imsi) ≡ text "nudm-sdm" ∷ text "v2" ∷ imsi ∷ text "sm-data" ∷ []
unfolding path_of segments
udm_url-path imsi s =
    ap (λ rest. text "nudm-sdm" ∷ text "v2" ∷ rest) (segments-append imsi (text "sm-data") s.plain)

pub amf_url-path :
    (imsi : Text)
    → IsSegment imsi
    → path_of (amf_url imsi)
      ≡ text "namf-comm" ∷ text "v1" ∷ text "ue-context" ∷ imsi ∷ text "n1-n2-messages" ∷ []
unfolding path_of segments
amf_url-path imsi s =
    ap (λ rest. text "namf-comm" ∷ text "v1" ∷ text "ue-context" ∷ rest)
      (segments-append imsi (text "n1-n2-messages") s.plain)

IsSegment-tests :
    (t : Text)
    → IsSegment t
    → ((t == []) ≡ false) × ((t == text ".") ≡ false) × ((t == text "..") ≡ false)
IsSegment-tests t s = (
  ground (arith, s.given, ==_iff t []),
  ground (arith, s.no_dot, ==_iff t (text ".")),
  ground (arith, s.no_dots, ==_iff t (text "..")),
)

pub dispatch-udm :
    (imsi : Text)
    → IsSegment imsi
    → dispatch udm_routes get_method (text "nudm-sdm" ∷ text "v2" ∷ imsi ∷ text "sm-data" ∷ [])
      ≡ handled get_subscription_data (imsi ∷ [])
unfolding dispatch is_clean choose match_pieces text_beq
dispatch-udm imsi s = ground (arith, IsSegment-tests imsi s)

pub dispatch-amf :
    (imsi : Text)
    → IsSegment imsi
    → dispatch amf_routes post_method
        (text "namf-comm" ∷ text "v1" ∷ text "ue-context" ∷ imsi ∷ text "n1-n2-messages" ∷ [])
      ≡ handled receive_n1n2_callback (imsi ∷ [])
unfolding dispatch is_clean choose match_pieces text_beq
dispatch-amf imsi s = ground (arith, IsSegment-tests imsi s)

dispatch-modify :
    (ref : Text)
    → IsSegment ref
    → dispatch smf_routes post_method
        (text "nsmf-pdusession" ∷ text "v1" ∷ text "sm-contexts" ∷ ref ∷ text "modify" ∷ [])
      ≡ handled update_sm_context (ref ∷ [])
unfolding dispatch is_clean choose match_pieces text_beq
dispatch-modify ref s = ground (arith, IsSegment-tests ref s)

-- The AMF's configured base is a scheme and a host.
abbrev pub base_url : Text → Text
base_url host = text "http://" ++ host

base_url-path :
    (host path : Text) → All IsPlain host → path_of (base_url host ++ (b'/' ∷ path)) ≡ segments path
unfolding path_of segments
base_url-path host path plain =
    ap (λ rest. after_host (text "http:" ∷ [] ∷ rest)) (segments-append host path plain)

modify_url-path :
    (host ref : Text) (h : Amf.Handler)
    → h.smf_base_url ≡ base_url host
    → All IsPlain host
    → IsSegment ref
    → path_of (modify_url h ref)
      ≡ text "nsmf-pdusession" ∷ text "v1" ∷ text "sm-contexts" ∷ ref ∷ text "modify" ∷ []
unfolding segments
modify_url-path host ref h based plain s =
    ap
      (λ base.
        path_of (base ++ (text "/nsmf-pdusession/v1/sm-contexts/" ++ (ref ++ text "/modify"))))
      based
    ∙ base_url-path host (text "nsmf-pdusession/v1/sm-contexts/" ++ (ref ++ text "/modify")) plain
    ∙ ap (λ rest. text "nsmf-pdusession" ∷ text "v1" ∷ text "sm-contexts" ∷ rest)
        (segments-append ref (text "modify") s.plain)

create_url-path :
    (host : Text) (h : Amf.Handler)
    → h.smf_base_url ≡ base_url host
    → All IsPlain host
    → path_of (create_url h) ≡ text "nsmf-pdusession" ∷ text "v1" ∷ text "sm-contexts" ∷ []
unfolding segments
create_url-path host h based plain =
    ap (λ base. path_of (base ++ text "/nsmf-pdusession/v1/sm-contexts")) based
    ∙ base_url-path host (text "nsmf-pdusession/v1/sm-contexts") plain

-- For an identity and a reference that are segments of a path (visible characters of ASCII but `/`, `?`,
-- `#` and `%`, at least one, and not `.` or `..`), and an AMF whose SMF is at a host named by letters,
-- digits, dashes and dots, with a port: each call between the network functions is routed to the handler
-- that it is meant for. These are the SMF's query to the UDM and its message to the AMF, each with the
-- identity; the AMF's creation and its update of a context at the SMF, the update with the reference; and
-- the trigger that the SMF passes on to the AMF.
pub dispatch-calls :
    (imsi ref name : Text) (port : ℕ) (h : Amf.Handler)
    → IsSegment imsi
    → IsSegment ref
    → h.smf_base_url ≡ base_url (host_port name port)
    → name ≢ []
    → port < 2 ^ 16
    → All IsHostChar name
    → (dispatch udm_routes get_method (path_of (udm_url imsi))
        ≡ handled get_subscription_data (imsi ∷ []))
      × (dispatch amf_routes post_method (path_of (amf_url imsi))
          ≡ handled receive_n1n2_callback (imsi ∷ []))
      × (dispatch smf_routes post_method (path_of (create_url h)) ≡ handled create_sm_context [])
      × (dispatch smf_routes post_method (path_of (modify_url h ref))
          ≡ handled update_sm_context (ref ∷ []))
      × (dispatch amf_routes post_method (path_of trigger_url) ≡ handled trigger_establishment [])
unfolding dispatch is_clean choose match_pieces path_of segments text_beq
dispatch-calls imsi ref name port h i r based named small host_plain =
    let host = host_port name port in
    let plain = host_port-IsPlain name port host_plain in
    (
      ap (dispatch udm_routes get_method) (udm_url-path imsi i) ∙ dispatch-udm imsi i,
      ap (dispatch amf_routes post_method) (amf_url-path imsi i) ∙ dispatch-amf imsi i,
      ap (dispatch smf_routes post_method) (create_url-path host h based plain),
      ap (dispatch smf_routes post_method) (modify_url-path host ref h based plain r)
          ∙ dispatch-modify ref r,
      refl,
    )
