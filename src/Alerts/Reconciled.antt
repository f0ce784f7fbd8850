-- ===== src/Alerts/Reconciled.antt =====
-- Which alerts are open after a reconciliation, src/worker/alerts.ts.
use hop_watch.Prelude.{
  String, ◌≡◌, refl, ap, ◌∙◌, Bool, true, false, not, ◌&&◌, ◌||◌, List, [], ◌∷◌, ◌++◌, arith,
  str_eq, str_eq_iff, if◌then◌else◌, if-cases, any,
}
use hop_watch.Alerts.{
  AlertRow, has_key, is_open_of, open_keys, insert_fired, count_fired, resolve_key, resolve_gone,
  reconcile,
}

-- Some alert of the rule is open under the key.
abbrev pub is_open : String → String → List AlertRow → Bool
is_open rule k = any (λ r. is_open_of rule r && str_eq r.fired_key k)

has_key-open_keys :
    (rule k : String) (rows : List AlertRow) → has_key k (open_keys rule rows) ≡ is_open rule k rows
unfolding open_keys
has_key-open_keys rule k [] = refl
has_key-open_keys rule k (r ∷ rs) = ground (arith, has_key-open_keys rule k rs)

is_open-snoc :
    (rule k : String) (rows : List AlertRow) (r : AlertRow)
    → is_open rule k (rows ++ r ∷ [])
      ≡ (is_open rule k rows || is_open_of rule r && str_eq r.fired_key k)
is_open-snoc rule k [] r = ground arith
is_open-snoc rule k (x ∷ rows) r = ground (arith, is_open-snoc rule k rows r)

same_text : (s : String) → str_eq s s ≡ true
same_text s = ground (arith, str_eq_iff s s)

key_agrees : (a b : String) (ks : List String) → str_eq a b ≡ true → has_key a ks ≡ has_key b ks
key_agrees a b ks h = ap (λ k. has_key k ks) ((str_eq_iff a b).0 h)

is_open-insert_fired :
    (rule other k : String) (opened fs : List String) (rows : List AlertRow)
    → is_open other k (insert_fired rule opened fs rows)
      ≡ (is_open other k rows || str_eq rule other && has_key k fs && not (has_key k opened))
unfolding insert_fired
is_open-insert_fired rule other k opened [] rows = ground arith
is_open-insert_fired rule other k opened (f ∷ fs) rows =
    if-cases
      (λ rows'. is_open other k (insert_fired rule opened fs rows') ≡ (
        is_open other k rows
        || str_eq rule other && (str_eq f k || has_key k fs) && not (has_key k opened)))
      (has_key f opened) (λ known. is_open-insert_fired rule other k opened fs rows ∙ old known)
      (λ new. is_open-insert_fired rule other k opened fs _ ∙ fresh new)
  where
    old :
        has_key f opened ≡ true
        → (is_open other k rows || str_eq rule other && has_key k fs && not (has_key k opened)) ≡ (
            is_open other k rows
            || str_eq rule other && (str_eq f k || has_key k fs) && not (has_key k opened))
    old known = (let a = key_agrees f k opened in ground arith)

    fresh :
        has_key f opened ≡ false
        → (is_open other k (rows ++ record { rule_id = rule; fired_key = f; resolved = false } ∷ [])
            || str_eq rule other && has_key k fs && not (has_key k opened))
          ≡ (is_open other k rows
              || str_eq rule other && (str_eq f k || has_key k fs) && not (has_key k opened))
    fresh new =
        (let a = key_agrees f k opened in
          let s =
            is_open-snoc other k rows
              (record { rule_id = rule; fired_key = f; resolved = false }) in
          ground arith)

left_agrees : (a b c : String) → str_eq a b ≡ true → str_eq a c ≡ str_eq b c
left_agrees a b c h = ap (λ x. str_eq x c) ((str_eq_iff a b).0 h)

right_agrees : (a b c : String) → str_eq a b ≡ true → str_eq c a ≡ str_eq c b
right_agrees a b c h = ap (λ x. str_eq c x) ((str_eq_iff a b).0 h)

bool_row :
    (a a' n b b' c d : Bool)
    → (a ≡ true → a' ≡ c)
    → (b ≡ true → b' ≡ d)
    → (c ≡ true → a ≡ a')
    → (d ≡ true → b ≡ b')
    → (((a && n) && b) ≡ true → ((a' && false) && b') ≡ (((a' && n) && b') && not (c && d)))
      × (((a && n) && b) ≡ false → ((a' && n) && b') ≡ (((a' && n) && b') && not (c && d)))
bool_row a a' n b b' c d f g h k = (λ hit. (ground arith), λ miss. (ground arith))

one_row :
    (rule other key k : String) (r : AlertRow)
    → (is_open_of other
          (if is_open_of rule r && str_eq r.fired_key key then record r { resolved = true } else r)
        && str_eq
            (if is_open_of rule r && str_eq r.fired_key key
              then record r { resolved = true }
              else r).fired_key
            k)
      ≡ ((is_open_of other r && str_eq r.fired_key k) && not (str_eq rule other && str_eq key k))
one_row rule other key k r =
    let rows =
      bool_row (str_eq r.rule_id rule) (str_eq r.rule_id other) (not r.resolved)
        (str_eq r.fired_key key) (str_eq r.fired_key k) (str_eq rule other) (str_eq key k)
        (left_agrees r.rule_id rule other) (left_agrees r.fired_key key k)
        (right_agrees rule other r.rule_id) (right_agrees key k r.fired_key) in
    if-cases
      (λ (x : AlertRow).
        (is_open_of other x && str_eq x.fired_key k)
        ≡ ((is_open_of other r && str_eq r.fired_key k) && not (str_eq rule other && str_eq key k)))
      (is_open_of rule r && str_eq r.fired_key key) (λ hit. rows.0 hit) (λ miss. rows.1 miss)

joined : (x x' y y' m : Bool) → x ≡ (x' && m) → y ≡ (y' && m) → (x || y) ≡ ((x' || y') && m)
joined x x' y y' m e f = ground arith

is_open-resolve_key :
    (rule other key k : String) (rows : List AlertRow)
    → is_open other k (resolve_key rule key rows)
      ≡ (is_open other k rows && not (str_eq rule other && str_eq key k))
unfolding resolve_key
is_open-resolve_key rule other key k [] = refl
is_open-resolve_key rule other key k (r ∷ rs) =
    joined _ (is_open_of other r && str_eq r.fired_key k) _ (is_open other k rs)
      (not (str_eq rule other && str_eq key k)) (one_row rule other key k r)
      (is_open-resolve_key rule other key k rs)

is_open-resolve_gone :
    (rule other k : String) (firing ks : List String) (rows : List AlertRow)
    → is_open other k (resolve_gone rule firing ks rows)
      ≡ (is_open other k rows && not (str_eq rule other && has_key k ks && not (has_key k firing)))
unfolding resolve_gone
is_open-resolve_gone rule other k firing [] rows = ground arith
is_open-resolve_gone rule other k firing (j ∷ ks) rows =
    is_open-resolve_gone rule other k firing ks _ ∙ here
  where
    here :
        (is_open other k (if not (has_key j firing) then resolve_key rule j rows else rows)
          && not (str_eq rule other && has_key k ks && not (has_key k firing)))
        ≡ (is_open other k rows
            && not (str_eq rule other && (str_eq j k || has_key k ks) && not (has_key k firing)))
    here =
        (let a = key_agrees j k firing in
          let r = is_open-resolve_key rule other j k rows in ground arith)

or_left : {a : Bool} (b : Bool) → a ≡ true → (a || b) ≡ true
or_left b e = ground arith

or_right : {b : Bool} (a : Bool) → b ≡ true → (a || b) ≡ true
or_right a e = ground arith

none_new :
    (opened fs : List String)
    → ((j : String) → has_key j fs ≡ true → has_key j opened ≡ true)
    → count_fired opened fs ≡ 0
unfolding count_fired
none_new opened [] h = refl
none_new opened (f ∷ fs) h =
    let known = h f (or_left _ (same_text f)) in
    let rest = none_new opened fs (λ j e. h j (or_right _ e)) in rw known rest

-- After a reconciliation of a rule that can clear, an alert of the rule is open under a key exactly
-- if the key fires; after one of a one-shot rule, if it was open before or fires. After either, the
-- alerts of a rule with another id are open or closed as they were, and a second reconciliation of
-- the same kind with the same firing keys sends no notification.
pub reconcile_lem :
    (one_shot : Bool) (rule other k : String) (firing : List String) (rows : List AlertRow)
    → str_eq rule other ≡ false
    → (is_open rule k (reconcile false rule firing rows).0 ≡ has_key k firing)
      × (is_open rule k (reconcile true rule firing rows).0
          ≡ (is_open rule k rows || has_key k firing))
      × (is_open other k (reconcile one_shot rule firing rows).0 ≡ is_open other k rows)
      × ((reconcile one_shot rule firing (reconcile one_shot rule firing rows).0).1 ≡ 0)
unfolding reconcile
reconcile_lem one_shot rule other k firing rows ne =
    (clearing k, keeping k, untouched one_shot, quiet one_shot)
  where
    inserted :
        (o k : String)
        → is_open o k (insert_fired rule (open_keys rule rows) firing rows) ≡ (
            is_open o k rows
            || str_eq rule o && has_key k firing && not (has_key k (open_keys rule rows)))
    inserted o k = is_open-insert_fired rule o k (open_keys rule rows) firing rows

    clearing :
        (k : String)
        → is_open rule k (
            resolve_gone rule firing
              (open_keys rule rows)
              (insert_fired rule (open_keys rule rows) firing rows))
          ≡ has_key k firing
    clearing k =
        (let i = inserted rule k in
          let o = has_key-open_keys rule k rows in
          let g =
            is_open-resolve_gone rule rule k firing (open_keys rule rows)
              (insert_fired rule (open_keys rule rows) firing rows) in
          let s = same_text rule in ground arith)

    keeping :
        (k : String)
        → is_open rule k (insert_fired rule (open_keys rule rows) firing rows)
          ≡ (is_open rule k rows || has_key k firing)
    keeping k =
        (let i = inserted rule k in
          let o = has_key-open_keys rule k rows in let s = same_text rule in ground arith)

    untouched : (b : Bool) → is_open other k (reconcile b rule firing rows).0 ≡ is_open other k rows
    untouched true = (let i = inserted other k in ground arith)
    untouched false =
        (let i = inserted other k in
          let g =
            is_open-resolve_gone rule other k firing (open_keys rule rows)
              (insert_fired rule (open_keys rule rows) firing rows) in
          ground arith)

    quiet : (b : Bool) → (reconcile b rule firing (reconcile b rule firing rows).0).1 ≡ 0
    quiet true =
        none_new _ firing
          (λ j f. has_key-open_keys rule j _ ∙ keeping j ∙ or_right (is_open rule j rows) f)
    quiet false = none_new _ firing (λ j f. has_key-open_keys rule j _ ∙ clearing j ∙ f)
