-- ===== src/Tests/Relays.antt =====
-- Runs of core/relay.go.
use cc2wechat.Prelude.{
  String, ◌≡◌, ◌⊎◌, refl, Bool, true, false, ◌&&◌, Option, none, some, List, [], ◌∷◌,
}
use cc2wechat.Prelude.GoMap.{has}
use cc2wechat.Prelude.Text.{has_colon, after_colon, before_colon}
use cc2wechat.Relay.{
  RelayManager, RelayRequest, SendError, error, parse_session_key_parts, send, remove_from_bind,
}
use cc2wechat.Relay.Bound.{Change, adds, removes, is_bound, changes, ideals, changes-bound}
use cc2wechat.Relay.Sending.{answer_of, send_lem}

abbrev relays : RelayManager
relays = record {
  engines = ("web", tt) ∷ ("bot", tt) ∷ [];
  bindings =
      ("chat1", record { platform = "slack"; chat_id = "chat1"; bots = ("web", "Web") ∷ [] }) ∷ [];
  store_path = "";
  timeout = 120;
  disk = record { file = none; writable = true };
}

abbrev request : RelayRequest
request = record { from = "bot"; to = "web"; session_key = "slack:chat1:ann"; message = "hello" }

abbrev echo : String → String → String → String → Option String
echo to from chat_id message = some message

no_colon : (has_colon "slack" ≡ false) × (has_colon "chat1" ≡ false)
unfolding has_colon
no_colon = (refl, refl)

parsed : parse_session_key_parts "slack:chat1:ann" ≡ some ("slack", "chat1")
unfolding parse_session_key_parts after_colon before_colon
parsed = refl

send_lem_example :
    (((is_bound "chat1" "web" relays && has "web" relays.engines) ≡ true)
      × ((send echo request relays).0 ≡ answer_of (echo "web" "bot" "chat1" "hello")))
    ⊎ (((is_bound "chat1" "web" relays && has "web" relays.engines) ≡ false)
        × (e : SendError) × (send echo request relays ≡ (error e, [])))
send_lem_example = send_lem echo "slack" "chat1" request relays parsed

abbrev steps : List Change
steps = adds "slack" "chat1" "bot" ∷ removes "chat1" "web" ∷ []

changes-bound_example :
    let f : String → String → Bool = ideals steps (λ d a. is_bound d a relays) in
    (is_bound "chat1" "bot" (changes steps relays) ≡ f "chat1" "bot")
    × ((remove_from_bind "chat1" "bot" (changes steps relays)).1 ≡ f "chat1" "bot")
changes-bound_example = changes-bound steps relays "chat1" "bot"
