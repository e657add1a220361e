-- ===== src/Ingress/Decoding.antt =====
-- What the decoder of a source (src/sources/ingress-link-source.cpp) plays.
use src_link.Schema.Array.{find}
use src_link.ApiClient.Ports.{Ports}
use src_link.Schema.{get_revision, get_id, StageConnection}
use src_link.Egress.Link.{Url, Qt}
use src_link.Ingress.{SourceSettings, ClientSettings, Ingress}
use src_link.Ingress.Downlink.{
  get_passphrase, login_succeeded, logout_succeeded, settings_updated, offers, has_stage,
  has_connection, stages_ready, downlink_ready, delete_succeeded, put_failed, SourceEvent,
  on_settings_update, on_stages_ready, on_login_succeeded, on_logout_succeeded, reconnection_needed,
  on_delete_downlink_succeeded, on_put_downlink_failed, handle, on_downlink_ready, reset_decoder,
}
use src_link.Ingress.Capture.{
  same_flag, is_selected, is_populated, create_decoder_settings, put_connection, capture_settings,
}
use src_link.Prelude.{
  ltb, str_eq_iff, ◌∙◌, sym, ap, refl, ◌≤◌, not, ◌||◌, String, none, some, true, false, branch,
  str_eq, ◌≡◌, if◌then◌else◌, arith, Option, Bool,
}

abbrev has_input : Option Url → Bool
has_input none = false
has_input (some url) = true

-- The decoder has an input only while the connection has an allocation.
pub record Fits (s : Ingress) : Type 0 where
  pub allocated : has_input s.decoder.input ≡ true → is_populated s.connection ≡ true

reset_decoder-Fits :
    (qt : Qt) (c : Option StageConnection) (s : Ingress) → Fits (reset_decoder qt c s)
unfolding reset_decoder create_decoder_settings
reset_decoder-Fits qt c s = ground arith

put_connection-Fits : (s : Ingress) → Fits s → Fits (put_connection s)
unfolding put_connection
put_connection-Fits s h = ground arith

capture_settings-Fits :
    (qt : Qt) (client : ClientSettings) (settings : SourceSettings) (stream_id : String)
    (used : Ports) (s : Ingress)
    → Fits s
    → Fits (capture_settings qt client settings stream_id used s).1
unfolding capture_settings
capture_settings-Fits qt client settings stream_id used s h = record { allocated = h.allocated }

if_Fits : (b : Bool) (x y : Ingress) → Fits x → Fits y → Fits (if b then x else y)
if_Fits b x y h k = branch Fits b x y (λ _. h) (λ _. k)

update_connection-Fits :
    (c : Option StageConnection) (s : Ingress)
    → reconnection_needed c s ≡ false
    → Fits s
    → Fits (record s { connection = c })
update_connection-Fits c s e h = ground arith

on_downlink_ready-Fits :
    (qt : Qt) (c : Option StageConnection) (s : Ingress) → Fits s → Fits (on_downlink_ready qt c s)
unfolding on_downlink_ready
on_downlink_ready-Fits qt c s h =
    if_Fits (str_eq (get_id c) s.uuid) _ _
      (branch Fits (reconnection_needed c s) _ _
        (λ _. reset_decoder-Fits qt c (record s { revision = get_revision c }))
        λ e. update_connection-Fits c s e h)
      h

-- Whatever happens to a source, its decoder has an input only while the source's connection has an
-- allocation on the server.
pub handle-Fits :
    (qt : Qt) (e : SourceEvent) (used : Ports) (s : Ingress) → Fits s → Fits (handle qt e used s).1
unfolding handle on_put_downlink_failed on_delete_downlink_succeeded on_logout_succeeded
    on_login_succeeded on_stages_ready on_settings_update
handle-Fits qt (put_failed id) used s h =
    if_Fits (str_eq id s.uuid) _ _ (reset_decoder-Fits qt none s) h
handle-Fits qt (delete_succeeded id) used s h =
    if_Fits (str_eq id s.uuid) _ _ (reset_decoder-Fits qt none s) h
handle-Fits qt (downlink_ready c) used s h = on_downlink_ready-Fits qt c s h
handle-Fits qt (stages_ready stages) used s h =
    if_Fits (has_connection s.connection || not (is_selected s.request)) _ _ h
      (if_Fits (has_stage (find (offers s.request) stages)) _ _ (put_connection-Fits s h) h)
handle-Fits qt login_succeeded used s h =
    if_Fits (has_connection s.connection) _ _ h (put_connection-Fits s h)
handle-Fits qt logout_succeeded used s h = reset_decoder-Fits qt none s
handle-Fits qt (settings_updated client settings id) used s h =
    put_connection-Fits _ (capture_settings-Fits qt client settings id used s h)

same_flag-same : (b : Bool) → same_flag b b ≡ true
same_flag-same true = refl
same_flag-same false = refl

-- A source that has the connection and is not behind its revision needs no reset for it.
not_needed :
    (c : Option StageConnection) (s : Ingress)
    → s.connection ≡ c
    → get_revision c ≤ s.revision
    → reconnection_needed c s ≡ false
not_needed c s e h =
    let flags =
      ap (λ k. same_flag (is_populated k) (is_populated c)) e ∙ same_flag-same (is_populated c) in
    let texts =
      ap (λ k. str_eq (get_passphrase k) (get_passphrase c)) e
      ∙ (str_eq_iff (get_passphrase c) (get_passphrase c)).1 refl in
    let later : ltb s.revision (get_revision c) ≡ false = ground arith in
    ground (arith, flags, texts, later)

settled :
    (qt : Qt) (c : Option StageConnection) (s : Ingress)
    → s.connection ≡ c
    → get_revision c ≤ s.revision
    → on_downlink_ready qt c s ≡ s
unfolding on_downlink_ready
settled qt c s e h =
    let never = not_needed c s e h in
    branch (λ x. x ≡ s) (str_eq (get_id c) s.uuid) _ _
      (λ _.
        branch (λ x. x ≡ s) (reconnection_needed c s) _ _ (λ y. ground (arith, y, never))
          λ _. ap (λ k. record s { connection = k }) (sym e))
      λ _. refl

other_source :
    (qt : Qt) (c : Option StageConnection) (s : Ingress)
    → str_eq (get_id c) s.uuid ≡ false
    → on_downlink_ready qt c s ≡ s
unfolding on_downlink_ready
other_source qt c s n =
    branch (λ x. x ≡ s) (str_eq (get_id c) s.uuid) _ _ (λ y. ground (arith, y, n)) λ _. refl

-- A downlink that arrives again right after it was handled changes nothing: the decoder is not reset
-- again and again, whatever the revision is.
pub on_downlink_ready-again :
    (qt : Qt) (c : Option StageConnection) (s : Ingress)
    → on_downlink_ready qt c (on_downlink_ready qt c s) ≡ on_downlink_ready qt c s
unfolding on_downlink_ready reset_decoder
on_downlink_ready-again qt c s =
    branch (λ x. on_downlink_ready qt c x ≡ x) (str_eq (get_id c) s.uuid) _ _
      (λ _.
        branch (λ x. on_downlink_ready qt c x ≡ x) (reconnection_needed c s) _ _
          (λ _.
            settled qt c (reset_decoder qt c (record s { revision = get_revision c })) refl
              (ground arith))
          λ n. settled qt c (record s { connection = c }) refl (ground arith))
      λ n. other_source qt c s n
