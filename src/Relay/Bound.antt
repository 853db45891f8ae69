-- ===== src/Relay/Bound.antt =====
-- Which projects are bound in which chat, core/relay.go, after any changes.
use cc2wechat.Prelude.{
  String, ◌≡◌, refl, Bool, false, not, ◌&&◌, ◌||◌, none, some, List, [], ◌∷◌, arith, ◌==◌, eq_iff,
  if◌then◌else◌, Option-cases, Bool-cases, inl, inr, ap, ◌∙◌,
}
use cc2wechat.Prelude.GoMap.{GoMap, get, put, delete, has, get-put, get-delete}
use cc2wechat.Relay.{
  RelayBinding, RelayManager, save_locked, bind, or_new, add_to_bind, put_or_delete,
  remove_from_bind, unbind,
}

unfoldable pub is_bound : String → String → RelayManager → Bool
is_bound chat_id project rm = elim (get chat_id rm.bindings) [
  | none ↦ false
  | some b ↦ has project b.bots
]

is_bound-save_locked :
    (c q : String) (rm : RelayManager) → is_bound c q (save_locked rm) ≡ is_bound c q rm
unfolding is_bound save_locked
is_bound-save_locked c q rm = ground arith

is_bound-put :
    (b : RelayBinding) (d c q : String) (rm : RelayManager)
    → is_bound c q (record rm { bindings = put d b rm.bindings })
      ≡ (if d == c then has q b.bots else is_bound c q rm)
unfolding is_bound
is_bound-put b d c q rm = ground (arith, get-put d c b rm.bindings)

is_bound-delete :
    (d c q : String) (rm : RelayManager)
    → is_bound c q (record rm { bindings = delete d rm.bindings })
      ≡ (if d == c then false else is_bound c q rm)
unfolding is_bound
is_bound-delete d c q rm = ground (arith, get-delete d c rm.bindings)

is_bound-put_or_delete :
    (b : RelayBinding) (d c q : String) (bots : GoMap String) (rm : RelayManager)
    → is_bound c q (put_or_delete b d bots rm) ≡ (if d == c then has q bots else is_bound c q rm)
unfolding put_or_delete get
is_bound-put_or_delete b d c q [] rm = is_bound-delete d c q rm
is_bound-put_or_delete b d c q (e ∷ bots) rm = is_bound-put (record b { bots = e ∷ bots }) d c q rm

is_bound-bind :
    (p d c q : String) (bots : GoMap String) (rm : RelayManager)
    → is_bound c q (bind p d bots rm) ≡ (if d == c then has q bots else is_bound c q rm)
unfolding bind
is_bound-bind p d c q bots rm =
    rw is_bound-save_locked
      (is_bound-put (record { platform = p; chat_id = d; bots = bots }) d c q rm)

-- The bots of the binding that an addition extends.
has-or_new :
    (p d q : String) (rm : RelayManager)
    → has q (or_new p d (get d rm.bindings)).bots ≡ is_bound d q rm
unfolding is_bound get
has-or_new p d q rm = elim (Option-cases (get d rm.bindings)) [
  | inl e ↦ ground (arith, e)
  | inr (b, e) ↦ ground (arith, e)
]

is_bound-add_to_bind :
    (p d a c q : String) (rm : RelayManager)
    → is_bound c q (add_to_bind p d a rm) ≡ ((d == c && a == q) || is_bound c q rm)
unfolding add_to_bind
is_bound-add_to_bind p d a c q rm =
    let b = or_new p d (get d rm.bindings) in
    rw is_bound-save_locked (
      ground (
        arith,
        is_bound-put (record b { bots = put a a b.bots }) d c q rm,
        get-put a q a b.bots,
        has-or_new p d q rm,
        eq_iff d c,
      ))

is_bound-remove_from_bind :
    (d a c q : String) (rm : RelayManager)
    → ((remove_from_bind d a rm).1 ≡ is_bound d a rm)
      × (is_bound c q (remove_from_bind d a rm).0 ≡ (is_bound c q rm && not (d == c && a == q)))
unfolding remove_from_bind is_bound
is_bound-remove_from_bind d a c q rm = elim (Option-cases (get d rm.bindings)) [
  | inl e ↦ rw (e, remove_from_bind) (unfold is_bound in ground (arith, e, eq_iff d c))
  | inr (b, e) ↦ elim (Bool-cases (has a b.bots)) [
    | inl h ↦
        rw (e, remove_from_bind)
          (rw h (
            unfold is_bound in ground (arith, e),
            rw is_bound-save_locked (
                unfold is_bound in
                ground (
                  arith,
                  e,
                  is_bound-put_or_delete b d c q (delete a b.bots) rm,
                  get-delete a q b.bots,
                  eq_iff d c,
                )),
          ))
    | inr h ↦
        rw (e, remove_from_bind)
          (rw h (unfold is_bound in ground (arith, e, eq_iff d c, eq_iff a q)))
  ]
]

is_bound-unbind :
    (d c q : String) (rm : RelayManager)
    → is_bound c q (unbind d rm) ≡ (is_bound c q rm && not (d == c))
unfolding unbind
is_bound-unbind d c q rm = rw is_bound-save_locked (ground (arith, is_bound-delete d c q rm))

-- Changes to the bindings. `binds` replaces what the chat had.
pub data Change : Type 0 where
  binds : String → String → GoMap String → Change
  adds : String → String → String → Change
  removes : String → String → Change
  unbinds : String → Change

unfoldable pub change : Change → RelayManager → RelayManager
change (binds platform d bots) rm = bind platform d bots rm
change (adds platform d a) rm = add_to_bind platform d a rm
change (removes d a) rm = (remove_from_bind d a rm).0
change (unbinds d) rm = unbind d rm

unfoldable pub changes : List Change → RelayManager → RelayManager
changes [] rm = rm
changes (x ∷ xs) rm = changes xs (change x rm)

-- A set of pairs of a chat and a project, by its test.
unfoldable pub ideal : Change → (String → String → Bool) → String → String → Bool
ideal (binds platform d bots) f c q = if d == c then has q bots else f c q
ideal (adds platform d a) f c q = (d == c && a == q) || f c q
ideal (removes d a) f c q = f c q && not (d == c && a == q)
ideal (unbinds d) f c q = f c q && not (d == c)

unfoldable pub ideals : List Change → (String → String → Bool) → String → String → Bool
ideals [] f = f
ideals (x ∷ xs) f = ideals xs (ideal x f)

bound-change :
    (x : Change) (rm : RelayManager) (f : String → String → Bool)
    → ((c q : String) → is_bound c q rm ≡ f c q)
    → (c q : String) → is_bound c q (change x rm) ≡ ideal x f c q
unfolding change ideal
bound-change (binds p d bots) rm f h c q = ground (arith, is_bound-bind p d c q bots rm, h c q)
bound-change (adds p d a) rm f h c q = ground (arith, is_bound-add_to_bind p d a c q rm, h c q)
bound-change (removes d a) rm f h c q =
    (is_bound-remove_from_bind d a c q rm).1
    ∙ ap (λ (b : Bool). b && not (d == c && a == q)) (h c q)
bound-change (unbinds d) rm f h c q = ground (arith, is_bound-unbind d c q rm, h c q)

bound-changes :
    (xs : List Change) (rm : RelayManager) (f : String → String → Bool)
    → ((c q : String) → is_bound c q rm ≡ f c q)
    → (c q : String) → is_bound c q (changes xs rm) ≡ ideals xs f c q
unfolding changes ideals
bound-changes [] rm f h c q = h c q
bound-changes (x ∷ xs) rm f h c q =
    bound-changes xs (change x rm) (ideal x f) (bound-change x rm f h) c q

-- After any changes a project is bound in a chat exactly where a set of pairs, on which the
-- changes act one by one, holds the pair; and `RemoveFromBind` reports whether it was.
pub changes-bound :
    (xs : List Change) (rm : RelayManager) (c q : String)
    → let f : String → String → Bool = ideals xs (λ d a. is_bound d a rm) in
      (is_bound c q (changes xs rm) ≡ f c q) × ((remove_from_bind c q (changes xs rm)).1 ≡ f c q)
changes-bound xs rm c q =
    let e = bound-changes xs rm (λ d a. is_bound d a rm) (λ d a. refl) c q in
    (e, (is_bound-remove_from_bind c q c q (changes xs rm)).0 ∙ e)
