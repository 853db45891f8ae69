-- ===== src/Manager/Query.antt =====
-- Reading the manager, and the display names and metadata, core/session.go.
use cc2wechat.Prelude.{String, ◌&&◌, Option, none, some, List, [], ◌∷◌, ◌==◌, if◌then◌else◌}
use cc2wechat.Prelude.GoMap.{GoMap, get, put, delete}
use cc2wechat.Session.{Session}
use cc2wechat.Manager.State.{Manager, UserMeta, ids_of}
use cc2wechat.Manager.Persist.{save_locked}

present : GoMap Session → List String → List Session
present sessions [] = []
present sessions (sid ∷ ids) =
    let rest = present sessions ids in elim (get sid sessions) [ none ↦ rest | some s ↦ s ∷ rest ]

unfoldable pub list_sessions : String → Manager → List Session
unfolding present
list_sessions user_key m = present m.sessions (ids_of user_key m)

-- A missing key reads as the empty text.
abbrev pub or_blank : Option String → String
or_blank none = ""
or_blank (some s) = s

unfoldable pub active_session_id : String → Manager → String
active_session_id user_key m = or_blank (get user_key m.active_session)

unfoldable pub find_by_id : String → Manager → Option Session
find_by_id id m = get id m.sessions

unfoldable pub set_session_name : String → String → Manager → Manager
set_session_name agent_session_id name m = save_locked (
    if name == ""
    then record m { session_names = delete agent_session_id m.session_names }
    else record m { session_names = put agent_session_id name m.session_names })

unfoldable pub get_session_name : String → Manager → String
get_session_name agent_session_id m = or_blank (get agent_session_id m.session_names)

or_blank_meta : Option UserMeta → UserMeta
or_blank_meta none = record { user_name = ""; chat_name = "" }
or_blank_meta (some meta) = meta

-- Only fields that are given are written; nothing is saved.
unfoldable pub update_user_meta : String → String → String → Manager → Manager
unfolding or_blank_meta
update_user_meta session_key user_name chat_name m =
    if user_name == "" && chat_name == ""
    then m
    else (let meta = or_blank_meta (get session_key m.user_meta) in
        record m {
          user_meta =
              put session_key
                (record {
                  user_name = if user_name == "" then meta.user_name else user_name;
                  chat_name = if chat_name == "" then meta.chat_name else chat_name;
                })
                m.user_meta;
        })

unfoldable pub get_user_meta : String → Manager → Option UserMeta
get_user_meta session_key m = get session_key m.user_meta

-- A Go set, `map[string]struct{}`.
abbrev pub StringSet : Type 0
StringSet = GoMap (Unit {0})

unfoldable pub put_all : List String → StringSet → StringSet
put_all [] ids = ids
put_all (past ∷ rest) ids = put_all rest (put past tt ids)

unfoldable pub collect : Session → StringSet → StringSet
collect s ids =
    put_all s.past_agent_session_ids
      (if s.agent_session_id == "" then ids else put s.agent_session_id tt ids)

unfoldable pub collect_all : GoMap Session → StringSet → StringSet
collect_all [] ids = ids
collect_all ((k, s) ∷ m) ids = collect_all m (collect s ids)

-- `none` is the nil map, which switches the filter off.
unfoldable pub known_agent_session_ids : Manager → Option StringSet
known_agent_session_ids m = if m.legacy_data then none else some (collect_all m.sessions [])
