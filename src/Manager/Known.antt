-- ===== src/Manager/Known.antt =====
-- `KnownAgentSessionIDs` of core/session.go, against the ids that the sessions track.
use cc2wechat.Prelude.{
  String, ◌≡◌, ◌⊎◌, ◌↔◌, refl, Bool, true, false, ◌||◌, none, some, List, [], ◌∷◌, inl, inr, arith,
  ◌==◌, eq_iff, Bool-cases,
}
use cc2wechat.Prelude.Lists.{contains}
use cc2wechat.Prelude.GoMap.{GoMap, get, put, has, get-put, Unique}
use cc2wechat.Session.{Session}
use cc2wechat.Session.Tracking.{tracks}
use cc2wechat.Manager.State.{Manager}
use cc2wechat.Manager.Query.{StringSet, put_all, collect, collect_all, known_agent_session_ids}

has-put : (k a : String) (ids : StringSet) → has a (put k tt ids) ≡ ((k == a) || has a ids)
has-put k a ids = ground (arith, get-put k a tt ids)

has-put_all :
    (a : String) (xs : List String) (ids : StringSet)
    → has a (put_all xs ids) ≡ (contains a xs || has a ids)
unfolding put_all contains
has-put_all a [] ids = refl
has-put_all a (x ∷ xs) ids = ground (arith, has-put_all a xs (put x tt ids), has-put x a ids)

-- For a text that is not empty, the ids collected of a session are those it tracks.
has-collect :
    (a : String) (s : Session) (ids : StringSet)
    → (a == "") ≡ false
    → has a (collect s ids) ≡ (tracks a s || has a ids)
unfolding collect tracks
has-collect a s ids h = ground (
  arith,
  has-put_all a s.past_agent_session_ids ids,
  has-put_all a s.past_agent_session_ids (put s.agent_session_id tt ids),
  has-put s.agent_session_id a ids,
  eq_iff s.agent_session_id a,
  eq_iff s.agent_session_id "",
  eq_iff a "",
)

unfoldable pub any_tracks : String → GoMap Session → Bool
any_tracks a [] = false
any_tracks a ((k, s) ∷ m) = tracks a s || any_tracks a m

has-collect_all :
    (a : String) (m : GoMap Session) (ids : StringSet)
    → (a == "") ≡ false
    → has a (collect_all m ids) ≡ (any_tracks a m || has a ids)
unfolding collect_all any_tracks
has-collect_all a [] ids h = refl
has-collect_all a ((k, s) ∷ m) ids h =
    ground (arith, has-collect_all a m (collect s ids) h, has-collect a s ids h)

-- In a map that holds each key once, some session tracks the id exactly where the session under
-- some key does.
any_tracks-get :
    (a : String) (m : GoMap Session)
    → Unique m
    → any_tracks a m ≡ true
    → (k : String) × (s : Session) × (get k m ≡ some s) × (tracks a s ≡ true)
unfolding any_tracks get
any_tracks-get a [] u h = cc
any_tracks-get a ((j, t) ∷ m) u h = elim (Bool-cases (tracks a t)) [
  | inl e ↦ (j, t, ground (arith, eq_iff j j), e)
  | inr e ↦
      let (k, s, here, tracked) = any_tracks-get a m u.1 (ground arith) in
      (k, s, ground (arith, eq_iff j k), tracked)
]

get-any_tracks :
    (a k : String) (s : Session) (m : GoMap Session)
    → get k m ≡ some s
    → tracks a s ≡ true
    → any_tracks a m ≡ true
unfolding any_tracks get
get-any_tracks a k s [] e h = cc
get-any_tracks a k s ((j, t) ∷ m) e h = ground (arith, get-any_tracks a k s m)

-- Where the manager's map holds each key once, `KnownAgentSessionIDs` returns nil exactly while
-- the manager holds legacy data. Else a text that is not empty is in the set exactly where some
-- session tracks it, as its current id or a past one.
pub known_agent_session_ids_lem :
    (m : Manager)
    → Unique m.sessions
    → ((m.legacy_data ≡ true) × (known_agent_session_ids m ≡ none))
      ⊎ ((m.legacy_data ≡ false)
          × (ids : StringSet) × (known_agent_session_ids m ≡ some ids)
          × ((a : String)
              → (a == "") ≡ false
              → (has a ids ≡ true) ↔ (
                  (k : String) × (s : Session) × (get k m.sessions ≡ some s)
                  × (tracks a s ≡ true))))
unfolding known_agent_session_ids get
known_agent_session_ids_lem m u = elim (Bool-cases m.legacy_data) [
  | inl e ↦ inl (e, rw e)
  | inr e ↦ inr (
    e,
    collect_all m.sessions [],
    rw e,
    λ a h. (
      λ t. any_tracks-get a m.sessions u (ground (arith, has-collect_all a m.sessions [] h)),
      λ (k, s, here, tracked).
          ground (
            arith,
            has-collect_all a m.sessions [] h,
            get-any_tracks a k s m.sessions here tracked,
          ),
    ),
  )
]
