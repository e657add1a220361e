-- ===== src/ApiClient/Catalog.antt =====
-- The stages, participants and portals that the client holds, as tables from ids to resources.
use src_link.Schema.Portals.{ws_portal_valid}
use src_link.Schema.Participants.{party_event_participant_valid}
use src_link.ApiClient.Resources.{has_id, remove_first}
use src_link.ApiClient.Tables.{
  remove_first-Distinct, entry_of-remove_first, remove_first-missing, entry_of, Distinct,
}
use src_link.Schema.Stages.{stage_valid}
use src_link.Schema.Json.{Value, JsonObject}
use src_link.Prelude.{
  ap, ◌∙◌, refl, false, none, str_eq, if◌then◌else◌, arith, Bool, ◌≡◌, List, String,
}
use src_link.ApiClient.State.{Client}
use src_link.Schema.Messages.{WebSocketMessage}
use src_link.ApiClient.Removals.{
  remove_ws_portals, remove_participants, remove_stages, removed, on_web_socket_data_removed,
}

pub data Table : Type 0 where
  of_stages of_participants of_portals : Table

-- The name in the messages of the web socket, the rows, and `isValid` of a row.
abbrev pub table_name : Table → String
table_name of_stages = "stages"
table_name of_participants = "participants"
table_name of_portals = "ws-portals"

abbrev pub rows : Table → Client → List Value
rows of_stages c = c.stages
rows of_participants c = c.participants
rows of_portals c = c.ws_portals

abbrev pub row_valid : Table → JsonObject → Bool
row_valid of_stages o = stage_valid o
row_valid of_participants o = party_event_participant_valid o
row_valid of_portals o = ws_portal_valid o

removed-rows :
    (t : Table) (id : String) (c : Client)
    → rows t (removed (table_name t) id c) ≡ remove_first (has_id id) (rows t c)
unfolding on_web_socket_data_removed remove_stages remove_participants remove_ws_portals
removed-rows of_stages id c = ground (arith, remove_first-missing id c.stages)
removed-rows of_participants id c = ground (arith, remove_first-missing id c.participants)
removed-rows of_portals id c = ground (arith, remove_first-missing id c.ws_portals)

-- No row depends on whether the signals are blocked.
rows-blocked :
    (t : Table) (b : Bool) (c : Client) → rows t (record c { signals_blocked = b }) ≡ rows t c
rows-blocked of_stages b c = refl
rows-blocked of_participants b c = refl
rows-blocked of_portals b c = refl

handled-removed :
    (t : Table) (m : WebSocketMessage) (c : Client)
    → m.name ≡ table_name t
    → rows t (on_web_socket_data_removed m c) ≡ remove_first (has_id m.id) (rows t c)
unfolding on_web_socket_data_removed
handled-removed t m c named =
    let c' = record c { signals_blocked = m.continuous } in
    rows-blocked t false (removed m.name m.id c')
    ∙ ap (λ name. rows t (removed name m.id c')) named
    ∙ removed-rows t m.id c'
    ∙ ap (remove_first (has_id m.id)) (rows-blocked t m.continuous c)

module _ (t : Table) (m : WebSocketMessage) (c : Client) (j : String) where
  -- In a list of stages, participants or portals in which no id stands twice, the id of a message
  -- that one was removed has none after it, every other id has what it had, and still no id stands
  -- twice.
  pub removed-entry :
      (named : m.name ≡ table_name t) (d : Distinct (rows t c))
      → (entry_of (rows t (on_web_socket_data_removed m c)) j
          ≡ (if str_eq m.id j then none else entry_of (rows t c) j))
        × Distinct (rows t (on_web_socket_data_removed m c))
  removed-entry named d =
      rw (handled-removed t m c named)
        (entry_of-remove_first m.id j (rows t c) d, remove_first-Distinct m.id (rows t c) d)
