-- ===== src/Tests/Sessions.antt =====
-- Runs of the session's operations, core/session.go.
use cc2wechat.Prelude.{◌≡◌, refl, true, List, [], ◌∷◌}
use cc2wechat.Prelude.Lists.{contains}
use cc2wechat.Session.{Session, blank, try_lock, set_agent_session_id, add_history}
use cc2wechat.Session.Updates.{Update, sets_id, strips, sets_info, invalidates, updates}
use cc2wechat.Session.Tracking.{IsProper, tracks, updates-tracks}
use cc2wechat.Session.Clean.{IsClean, updates-IsClean}

abbrev fresh : Session
fresh = blank "s1" "work" 7

abbrev turns : List Update
turns =
    sets_id "b" "claude"
    ∷ sets_info "__continue__" "claude" "work"
    ∷ strips
    ∷ invalidates "codex"
    ∷ []

abbrev talk : Session
talk = add_history "assistant" "hello" 9 (add_history "user" "hi" 8 fresh)

a-IsProper : IsProper "a"
a-IsProper = record { named = refl; real = refl }

fresh-IsClean : IsClean fresh
unfolding blank contains
fresh-IsClean = record { unsent = refl; distinct = tt; named = refl; real = refl }

tracked : tracks "a" (set_agent_session_id "a" "claude" fresh) ≡ true
unfolding tracks set_agent_session_id blank
tracked = refl

updates-tracks_example : tracks "a" (updates turns (set_agent_session_id "a" "claude" fresh)) ≡ true
updates-tracks_example =
    updates-tracks "a" turns (set_agent_session_id "a" "claude" fresh) a-IsProper tracked

updates-IsClean_example : IsClean (updates turns fresh)
updates-IsClean_example = updates-IsClean turns fresh fresh-IsClean

locked : (try_lock fresh).1 ≡ true
unfolding try_lock blank
locked = refl
