-- ===== src/Relay/Sending.antt =====
-- Whom a relay reaches, `Send` of core/relay.go.
use cc2wechat.Prelude.{
  String, ◌≡◌, ◌⊎◌, refl, true, false, ◌&&◌, Option, none, some, [], arith, ◌==◌, Option-cases,
  Bool-cases, inl, inr,
}
use cc2wechat.Prelude.GoMap.{get, has}
use cc2wechat.Prelude.Text.{colon, has_colon, after_colon-colon, before_colon-colon}
use cc2wechat.Relay.{
  RelayManager, RelayRequest, SendResult, SendError, response, error, failed, no_binding, not_bound,
  no_engine, RelayBinding, parse_session_key_parts, relay, send,
}
use cc2wechat.Relay.Bound.{is_bound}

-- The session key of a user, where platform and chat have no colon and the platform is not
-- called relay, gives the platform and the chat; the key of a relay session, from a project
-- without a colon, gives "relay" and the chat, in which there may be colons.
pub parse_session_key_parts-colon :
    (platform chat_id rest : String)
    → has_colon platform ≡ false
    → has_colon chat_id ≡ false
    → (platform == "relay") ≡ false
    → (parse_session_key_parts (colon platform (colon chat_id rest)) ≡ some (platform, chat_id))
      × (parse_session_key_parts (colon "relay" (colon platform rest)) ≡ some ("relay", rest))
unfolding parse_session_key_parts has_colon
parse_session_key_parts-colon platform chat_id rest p c r = (
  ground (
    arith,
    after_colon-colon platform (colon chat_id rest) p,
    after_colon-colon chat_id rest c,
    before_colon-colon platform (colon chat_id rest) p,
    before_colon-colon chat_id rest c,
  ),
  rw (after_colon-colon "relay" (colon platform rest) refl, parse_session_key_parts)
      (rw (after_colon-colon platform rest p)
        (rw (before_colon-colon "relay" (colon platform rest) refl) refl)),
)

abbrev pub answer_of : Option String → SendResult
answer_of none = error failed
answer_of (some answer) = response answer

answer-relay :
    (ask : String → String → String → String → Option String) (platform chat_id : String)
    (b : RelayBinding) (req : RelayRequest) (rm : RelayManager)
    → (relay ask platform chat_id b req rm).0 ≡ answer_of (ask req.to req.from chat_id req.message)
unfolding relay
answer-relay ask platform chat_id b req rm = ground arith

-- A message in a chat whose session key can be read reaches the target engine exactly where the
-- target is bound in the chat and its engine is registered: then the result is what the engine
-- answers. Else the result is an error, and nothing is posted to the group.
pub send_lem :
    (ask : String → String → String → String → Option String) (platform chat_id : String)
    (req : RelayRequest) (rm : RelayManager)
    → parse_session_key_parts req.session_key ≡ some (platform, chat_id)
    → (((is_bound chat_id req.to rm && has req.to rm.engines) ≡ true)
        × ((send ask req rm).0 ≡ answer_of (ask req.to req.from chat_id req.message)))
      ⊎ (((is_bound chat_id req.to rm && has req.to rm.engines) ≡ false)
          × (e : SendError) × (send ask req rm ≡ (error e, [])))
unfolding is_bound send
send_lem ask platform chat_id req rm k = elim (Option-cases (get chat_id rm.bindings)) [
  | inl e ↦ rw (k, send) (rw e (inr (ground (arith, e), no_binding, refl)))
  | inr (b, e) ↦ elim (Bool-cases (has req.to b.bots)) [
    | inr n ↦ rw (k, send) (rw e (rw n (inr (ground (arith, e, n), not_bound, refl))))
    | inl y ↦ elim (Bool-cases (has req.to rm.engines)) [
      | inr n ↦ rw (k, send) (rw e (rw (y, n) (inr (ground (arith, e, y, n), no_engine, refl))))
      | inl z ↦
          rw (k, send)
            (rw e (
              rw (y, z)
                (inl (ground (arith, e, y, z), answer-relay ask platform chat_id b req rm))))
    ]
  ]
]
