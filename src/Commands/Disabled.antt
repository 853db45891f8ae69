-- ===== src/Commands/Disabled.antt =====
-- Which commands are disabled, `resolveDisabledCmds` of core/engine.go.
use Prim.Native.Char.{code}
use cc2wechat.Prelude.{
  String, ◌≡◌, ◌≢◌, ◌⊎◌, ◌↔◌, sym, true, eqb, refl, Bool, false, not, ◌&&◌, ◌||◌, List, [], ◌∷◌,
  arith, ◌==◌, Bool-cases, String-cases, ◌∙◌, eq_iff, inl, inr,
}
use mathlib.Core.Path.{subst}
use cc2wechat.Prelude.GoMap.{GoMap, get, put, has, get-put}
use cc2wechat.Commands.{
  Candidate, put_ids, match_prefix, trim_slash, normal_name, disabled_id, resolve_from,
  resolve_disabled_cmds,
}

unfoldable pub is_builtin : String → List Candidate → Bool
is_builtin k [] = false
is_builtin k (c ∷ cs) = c.id == k || is_builtin k cs

has-put_ids :
    (k : String) (cs : List Candidate) (m : GoMap (Unit {0}))
    → has k (put_ids cs m) ≡ (is_builtin k cs || has k m)
unfolding put_ids is_builtin
has-put_ids k [] m = refl
has-put_ids k (c ∷ cs) m = ground (arith, has-put_ids k cs (put c.id tt m), get-put c.id k tt m)

module _ (to_lower : String → String) (builtin_commands : List Candidate) where
  -- The list holds the wildcard.
  unfoldable pub any_star : List String → Bool
  any_star [] = false
  any_star (c ∷ cmds) = normal_name to_lower builtin_commands c == "*" || any_star cmds

  -- A command before the first wildcard stands for the id.
  unfoldable pub listed : String → List String → Bool
  listed k [] = false
  listed k (c ∷ cmds) =
      let name = normal_name to_lower builtin_commands c in
      not (name == "*") && (disabled_id to_lower builtin_commands name == k || listed k cmds)

  has-resolve_from :
      (k : String) (cmds : List String) (m : GoMap (Unit {0}))
      → has k (resolve_from to_lower builtin_commands cmds m)
        ≡ ((any_star cmds && is_builtin k builtin_commands) || listed k cmds || has k m)
  unfolding resolve_from any_star listed
  has-resolve_from k [] m = refl
  has-resolve_from k (c ∷ cmds) m =
      let name = normal_name to_lower builtin_commands c in
      let id = disabled_id to_lower builtin_commands name in
      elim (Bool-cases (name == "*")) [
        | inl e ↦ ground (arith, has-put_ids k builtin_commands m)
        | inr e ↦ ground (arith, has-resolve_from k cmds (put id tt m), get-put id k tt m)
      ]

  -- The name that a command of the list gives: without a slash at its front, in lower case.
  abbrev pub Gives : String → String → Type 0
  Gives String.[] name = name ≡ to_lower ""
  Gives (String.◌∷◌ c s) name =
      ((code c ≡ 47) × (name ≡ to_lower s)) ⊎ ((code c ≢ 47) × (name ≡ to_lower (String.◌∷◌ c s)))

  -- The id that a name stands for: of the built-in command that it matches, or itself.
  abbrev pub StandsFor : String → String → Type 0
  StandsFor name k =
      ((match_prefix name builtin_commands ≡ k) × (k ≢ ""))
      ⊎ ((match_prefix name builtin_commands ≡ "") × (name ≡ k))

  -- The list has the wildcard.
  abbrev pub HasWildcard : List String → Type 0
  HasWildcard [] = ⊥
  HasWildcard (c ∷ cmds) = Gives c "*" ⊎ HasWildcard cmds

  -- Some command before the first wildcard stands for the id.
  abbrev pub Lists : String → List String → Type 0
  Lists k [] = ⊥
  Lists k (c ∷ cmds) =
      (name : String) × Gives c name × (name ≢ "*") × (StandsFor name k ⊎ Lists k cmds)

  Gives-normal : (c name : String) → Gives c name ↔ (normal_name to_lower builtin_commands c ≡ name)
  unfolding normal_name trim_slash
  Gives-normal String.[] name = (λ h. sym h, λ h. sym h)
  Gives-normal (String.◌∷◌ c s) name = elim (Bool-cases (eqb (code c) 47)) [
    | inl e ↦ rw e (
      λ h. elim h [ inl (a, b) ↦ sym b | inr (a, b) ↦ absurd (ground (arith, e, a)) ],
      λ h. inl (ground (arith, e), sym h),
    )
    | inr e ↦ rw e (
      λ h. elim h [ inl (a, b) ↦ absurd (ground (arith, e, a)) | inr (a, b) ↦ sym b ],
      λ h. inr (λ x. ground (arith, e, x), sym h),
    )
  ]

  StandsFor-id :
      (name k : String) → StandsFor name k ↔ (disabled_id to_lower builtin_commands name ≡ k)
  unfolding disabled_id
  StandsFor-id name k = elim (String-cases (match_prefix name builtin_commands) "") [
    | inl (e, b) ↦
        rw (b, disabled_id)
          (λ h. elim h [ inl (m, n) ↦ absurd (n (sym m ∙ e)) | inr (m, n) ↦ n ], λ h. inr (e, h))
    | inr (e, b) ↦
        rw (b, disabled_id)
          (λ h. elim h [ inl (m, n) ↦ m | inr (m, n) ↦ absurd (e m) ], λ h. inl (h, λ q. e (h ∙ q)))
  ]

  HasWildcard-star : (cmds : List String) → HasWildcard cmds ↔ (any_star cmds ≡ true)
  unfolding any_star
  HasWildcard-star [] = (λ h. absurd h, λ h. cc)
  HasWildcard-star (c ∷ cmds) =
      let (to, from) = Gives-normal c "*" in
      let (on, back) = HasWildcard-star cmds in
      let name = normal_name to_lower builtin_commands c in
      (
        λ h. elim h [
          | inl g ↦ ground (arith, eq_iff name "*", to g)
          | inr w ↦ ground (arith, on w)
        ],
        λ h. elim (String-cases name "*") [
          | inl (e, b) ↦ inl (from e)
          | inr (e, b) ↦ inr (back (ground (arith, h, b)))
        ],
      )

  Lists-listed : (k : String) (cmds : List String) → Lists k cmds ↔ (listed k cmds ≡ true)
  unfolding listed
  Lists-listed k [] = (λ h. absurd h, λ h. cc)
  Lists-listed k (c ∷ cmds) =
      let name = normal_name to_lower builtin_commands c in
      let (on, back) = Lists-listed k cmds in
      (
        λ (n, g, w, h).
            let e : name ≡ n = (Gives-normal c n).0 g in
            elim h [
              | inl s ↦ ground (
                arith,
                eq_iff name "*",
                e,
                w,
                (StandsFor-id name k).0 (subst (λ x. StandsFor x k) (sym e) s),
                eq_iff (disabled_id to_lower builtin_commands name) k,
              )
              | inr l ↦ ground (arith, eq_iff name "*", e, w, on l)
            ],
        λ h. (
          name,
          (Gives-normal c name).1 refl,
          (λ q. ground (arith, eq_iff name "*", q, h)),
          (elim (String-cases (disabled_id to_lower builtin_commands name) k) [
            | inl (e, b) ↦ inl ((StandsFor-id name k).1 e)
            | inr (e, b) ↦ inr (back (ground (arith, h, b)))
          ]),
        ),
      )

  -- An id is disabled exactly where the list has the wildcard and the id is of a built-in
  -- command, or a command before the first wildcard stands for it: without a slash at its front
  -- and in lower case, it matches the built-in command of the id, or matches none and is the id.
  pub resolve_disabled_cmds_lem :
      (k : String) (cmds : List String)
      → (has k (resolve_disabled_cmds to_lower builtin_commands cmds) ≡ true)
        ↔ ((HasWildcard cmds × (is_builtin k builtin_commands ≡ true)) ⊎ Lists k cmds)
  unfolding resolve_disabled_cmds get
  resolve_disabled_cmds_lem k cmds =
      let (w, w') = HasWildcard-star cmds in
      let (l, l') = Lists-listed k cmds in
      let e = has-resolve_from k cmds [] in
      (
        λ h. elim (Bool-cases (listed k cmds)) [
          | inl b ↦ inr (l' b)
          | inr b ↦ inl (w' (ground (arith, h, e, b)), ground (arith, h, e, b))
        ],
        λ h. elim h [ inl (a, b) ↦ ground (arith, e, w a, b) | inr a ↦ ground (arith, e, l a) ],
      )
