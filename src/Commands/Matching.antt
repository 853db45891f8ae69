-- ===== src/Commands/Matching.antt =====
-- Which command a prefix names, `matchPrefix` of core/engine.go.
use cc2wechat.Prelude.{
  String, ◌≡◌, Bool, true, false, not, ◌&&◌, ◌||◌, none, List, [], ◌∷◌, arith, ◌==◌, eq_iff,
}
use cc2wechat.Commands.{Candidate, exact_match, any_has_prefix, prefix_match, match_prefix}

-- Every id of the table is a proper one.
abbrev pub AreNamed : List Candidate → Type 0
AreNamed [] = Unit {0}
AreNamed (c ∷ cs) = ((c.id == "") ≡ false) × AreNamed cs

-- Some candidate has a name with the prefix.
unfoldable pub any_hit : String → List Candidate → Bool
any_hit prefix [] = false
any_hit prefix (c ∷ cs) = any_has_prefix prefix c.names || any_hit prefix cs

-- All candidates with such a name have the id.
unfoldable pub only_hits : String → String → List Candidate → Bool
only_hits prefix id [] = true
only_hits prefix id (c ∷ cs) =
    (not (any_has_prefix prefix c.names) || c.id == id) && only_hits prefix id cs

prefix_match-matched :
    (prefix matched r : String) (cs : List Candidate)
    → AreNamed cs
    → (r == "") ≡ false
    → (matched == "") ≡ false
    → (prefix_match prefix matched cs == r) ≡ (matched == r && only_hits prefix r cs)
unfolding prefix_match only_hits
prefix_match-matched prefix matched r [] n h m = ground arith
prefix_match-matched prefix matched r (c ∷ cs) n h m = ground (
  arith,
  eq_iff matched c.id,
  eq_iff matched r,
  eq_iff c.id r,
  eq_iff "" r,
  eq_iff r "",
  prefix_match-matched prefix matched r cs n.1 h m,
  prefix_match-matched prefix c.id r cs n.1 h n.0,
)

prefix_match_lem :
    (prefix r : String) (cs : List Candidate)
    → AreNamed cs
    → (r == "") ≡ false
    → (prefix_match prefix "" cs == r) ≡ (any_hit prefix cs && only_hits prefix r cs)
unfolding prefix_match only_hits any_hit
prefix_match_lem prefix r [] n h = ground (arith, eq_iff "" r, eq_iff r "")
prefix_match_lem prefix r (c ∷ cs) n h =
    ground
      (arith, prefix_match_lem prefix r cs n.1 h, prefix_match-matched prefix c.id r cs n.1 h n.0)

-- In a table whose ids are not empty, where no candidate has the prefix itself as a name, the match is an
-- id that is not empty exactly where some candidate has a name with the prefix, and all that have one
-- have this id.
pub match_prefix_lem :
    (prefix r : String) (cs : List Candidate)
    → AreNamed cs
    → (r == "") ≡ false
    → exact_match prefix cs ≡ none
    → (match_prefix prefix cs == r) ≡ (any_hit prefix cs && only_hits prefix r cs)
unfolding match_prefix
match_prefix_lem prefix r cs n h e = rw (e, match_prefix) (prefix_match_lem prefix r cs n h)
