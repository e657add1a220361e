-- ===== src/Egress/Service.antt =====
-- The settings of the streaming service (createEgressSettings of
-- src/outputs/egress-link-output.cpp) and the connection that they are made from.
use src_link.Prelude.{
  none, some, leb, ◌&&◌, some, not, true, ◌++◌, ap, ◌∙◌, inr, ◌*◌, false, refl, inl, ◌||◌, arith,
  Bool-cases, Option, suc, ◌==◌, str_eq, if◌then◌else◌, [], ◌≡◌, Bool, ◌∷◌, ℕ, ◌≤◌, String, List,
}
use src_link.Egress.Link.{
  EgressSettings, Settings, Qt, limit_bitrate, remove_query_item, create_egress_settings,
  override_latency,
}
use src_link.Schema.{UplinkInfo, StageConnection}

-- The values that a query has for a name.
abbrev pub values : String → List (String × String) → List String
values k [] = []
values k ((j, v) ∷ q) = if str_eq j k then v ∷ values k q else values k q

values-append :
    (k : String) (q r : List (String × String)) → values k (q ++ r) ≡ values k q ++ values k r
values-append k [] r = refl
values-append k ((j, v) ∷ q) r = elim (Bool-cases (str_eq j k)) [
  | inl e ↦ rw e (ap (λ l. v ∷ l) (values-append k q r))
  | inr e ↦ rw e (values-append k q r)
]

-- All but the first.
abbrev pub tail_of : List String → List String
tail_of [] = []
tail_of (v ∷ vs) = vs

values-remove_query_item :
    (k : String) (q : List (String × String))
    → values k (remove_query_item k q) ≡ tail_of (values k q)
unfolding remove_query_item
values-remove_query_item k [] = refl
values-remove_query_item k ((j, v) ∷ q) = elim (Bool-cases (str_eq j k)) [
  | inl e ↦ rw e refl
  | inr e ↦ rw (e, e) (values-remove_query_item k q)
]

abbrev pub number_of_items : List String → ℕ
number_of_items [] = 0
number_of_items (v ∷ vs) = suc (number_of_items vs)

few_tail : (vs : List String) → number_of_items vs ≤ 1 → tail_of vs ≡ []
few_tail [] h = refl
few_tail (v ∷ []) h = refl
few_tail (v ∷ u ∷ vs) h = ground arith

-- If the participant sets a latency and the parameters of the connection have at most one, then the
-- stream has just one latency, the participant's in microseconds.
pub override_latency-values :
    (qt : Qt) (latency : ℕ) (q : List (String × String))
    → (latency == 0) ≡ false
    → number_of_items (values "latency" q) ≤ 1
    → values "latency" (override_latency qt latency q) ≡ qt.number (latency * 1000) ∷ []
unfolding override_latency
override_latency-values qt latency q h few = rw h (
    values-append "latency" (remove_query_item "latency" q) _
    ∙ ap (λ l. l ++ qt.number (latency * 1000) ∷ [])
        (values-remove_query_item "latency" q ∙ few_tail _ few))

limit_bitrate-within :
    (c : StageConnection) (b : ℕ)
    → c.min_bitrate ≤ c.max_bitrate
    → (c.min_bitrate ≤ limit_bitrate c b) × (limit_bitrate c b ≤ c.max_bitrate)
unfolding limit_bitrate
limit_bitrate-within c b h = ground arith

-- The settings are made just for the two protocols that are known.
abbrev is_known : StageConnection → Bool
is_known c = str_eq c.protocol "srt" || str_eq c.protocol "rtmp"

-- What was made, if anything, is right for the connection.
abbrev pub is_right : StageConnection → Option EgressSettings → Bool
is_right c none = not (is_known c)
is_right c (some e) =
    is_known c && leb c.min_bitrate e.common.bitrate && leb e.common.bitrate c.max_bitrate

-- If the bounds of a connection are in order, then the settings of the service are made just if the
-- connection's protocol is SRT or RTMP, and their bitrate is within the connection's bounds.
pub create_egress_settings-bounds :
    (qt : Qt) (uplink : Option UplinkInfo) (s : Settings) (c : StageConnection)
    → c.min_bitrate ≤ c.max_bitrate
    → is_right c (create_egress_settings qt uplink s c) ≡ true
unfolding create_egress_settings
create_egress_settings-bounds qt uplink s c h =
    let within = limit_bitrate-within c s.bitrate h in ground arith
