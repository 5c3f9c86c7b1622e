-- ===== src/Gate/Upload/Withheld.antt =====
-- What a person excluded at the gate, and what is uploaded.
use mathlib.Core.List.{Memᴰ}
use mathlib.Core.List.Memᴰ
use mathlib.Core.List.Memᴰ.{head, tail}
use rda_data_director.Prelude.{
  ◌≡◌, ◌⊎◌, ◌↔◌, inl, inr, refl, sym, ap, ◌∙◌, String, Bool, true, false, not, ◌||◌, List, [], ◌∷◌,
  Option, none, some, arith, eq_iff, str_eq, contains, contains-append, str_eq_refl, subst, any,
  Memᴰ-keep_if, keep_if-Memᴰ, Bool-cases, if◌then◌else◌,
}
use rda_data_director.Paths.{
  PurePath, last_part, as_posix, relative_to, join_path, relative_to-join_path, relative_to-some,
}
use rda_data_director.Contracts.Gate.{
  ItemDecision, exclude_from_deposit, GateItem, Resolution, GateState, is_exclusion, artefact_named,
  item_by_id, excluded_artefacts,
}
use rda_data_director.Gate.Upload.{relative_key, unpacked_key, exclusion_keys, artefacts_to_upload}

-- A text names a file by its name, by its whole path, or by its path below the directory that the
-- material was unpacked to.
abbrev pub Names : Option PurePath → PurePath → String → Type 0
Names unpacked p a =
    (last_part p.parts ≡ a)
    ⊎ (as_posix p ≡ a)
    ⊎ ((root : PurePath) × (path : PurePath) × (unpacked ≡ some root)
        × (path.absolute ≡ false)
        × (p ≡ join_path root path)
        × (as_posix path ≡ a))

-- A decision to exclude the artefact of an item, which names the file.
pub record Withheld (state : GateState) (unpacked : Option PurePath) (p : PurePath) : Type 0 where
  pub resolution : Resolution
  pub item : GateItem
  pub artefact : String
  pub recorded : Memᴰ resolution state.resolutions
  pub excludes : resolution.decision ≡ exclude_from_deposit
  pub about : item_by_id resolution.item_id state.items ≡ some item
  pub has_artefact : item.artefact ≡ some artefact
  pub not_empty : str_eq artefact "" ≡ false
  pub named : Names unpacked p artefact

unpacked_key-path :
    (p root path : PurePath)
    → path.absolute ≡ false
    → p ≡ join_path root path
    → unpacked_key p (some root) ≡ as_posix path ∷ []
unpacked_key-path p root path relative same =
    ap (λ q. unpacked_key q (some root)) same ∙ rw (relative_to-join_path root path relative) refl

-- The keys of a file are exactly the texts that name it.
exclusion_keys-Names :
    (unpacked : Option PurePath) (p : PurePath) (a : String)
    → Names unpacked p a
    → contains (exclusion_keys p unpacked) a ≡ true
exclusion_keys-Names unpacked p a (inl by_name) = ground (arith, str_eq_refl a)
exclusion_keys-Names unpacked p a (inr (inl by_path)) = ground (arith, str_eq_refl a)
exclusion_keys-Names unpacked p a (inr (inr (root, path, known, relative, joined, same))) =
    let key : unpacked_key p unpacked ≡ a ∷ [] =
      ap (unpacked_key p) known
      ∙ unpacked_key-path p root path relative joined
      ∙ ap (λ s. s ∷ []) same in
    ap (λ l. contains (last_part p.parts ∷ as_posix p ∷ l) a) key ∙ ground (arith, str_eq_refl a)

Names-exclusion_keys :
    (unpacked : Option PurePath) (p : PurePath) (a : String)
    → contains (exclusion_keys p unpacked) a ≡ true
    → Names unpacked p a
Names-exclusion_keys unpacked p a h = elim (Bool-cases (str_eq (last_part p.parts) a)) [
  | inl same ↦ inl ((eq_iff (last_part p.parts) a).0 same)
  | inr other ↦ elim (Bool-cases (str_eq (as_posix p) a)) [
    | inl same ↦ inr (inl ((eq_iff (as_posix p) a).0 same))
    | inr differ ↦ inr (inr (below unpacked (ground (arith, h, other, differ))))
  ]
]
  where
    by_relative :
        (root : PurePath) (o : Option PurePath)
        → relative_to p root ≡ o
        → contains (relative_key o) a ≡ true
        → (path : PurePath) × (path.absolute ≡ false)
          × (p ≡ join_path root path)
          × (as_posix path ≡ a)
    by_relative root none e h = cc
    by_relative root (some path) e h =
        let (relative, joined) = relative_to-some p root path e in
        (path, relative, joined, (eq_iff (as_posix path) a).0 (ground (arith, h)))

    below :
        (o : Option PurePath)
        → contains (unpacked_key p o) a ≡ true
        → (root : PurePath) × (path : PurePath) × (o ≡ some root)
          × (path.absolute ≡ false)
          × (p ≡ join_path root path)
          × (as_posix path ≡ a)
    below none h = cc
    below (some root) h =
        let (path, relative, joined, same) = by_relative root (relative_to p root) refl h in
        (root, path, refl, relative, joined, same)

contains-excluded :
    (items : List GateItem) (rs : List Resolution) (r : Resolution) (item : GateItem) (a : String)
    → Memᴰ r rs
    → r.decision ≡ exclude_from_deposit
    → item_by_id r.item_id items ≡ some item
    → item.artefact ≡ some a
    → str_eq a "" ≡ false
    → contains (excluded_artefacts items rs) a ≡ true
unfolding excluded_artefacts
contains-excluded items [] r item a m d i e n = absurd (Memᴰ.not-nil m)
contains-excluded items (q ∷ rs) r item a (head same) d i e n =
    let here : contains (excluded_artefacts items (r ∷ rs)) a ≡ true =
      rw d (rw i (rw e (rw n (ground (arith, str_eq_refl a))))) in
    subst (λ q. contains (excluded_artefacts items (q ∷ rs)) a ≡ true) same here
contains-excluded items (q ∷ rs) r item a (tail m) d i e n =
    let own = if is_exclusion q.decision then artefact_named (item_by_id q.item_id items) else [] in
    contains-append own (excluded_artefacts items rs) a
    ∙ or_right (contains own a) (contains-excluded items rs r item a m d i e n)
  where
    or_right : {c : Bool} (b : Bool) → c ≡ true → (b || c) ≡ true
    or_right b h = ground arith

is_exclusion-true : (d : ItemDecision) → is_exclusion d ≡ true → d ≡ exclude_from_deposit
is_exclusion-true exclude_from_deposit h = refl
is_exclusion-true d h = cc

artefact_named-contains :
    (o : Option GateItem) (a : String)
    → contains (artefact_named o) a ≡ true
    → (item : GateItem) × (o ≡ some item) × (item.artefact ≡ some a) × (str_eq a "" ≡ false)
artefact_named-contains none a h = cc
artefact_named-contains (some item) a h =
    let (own, filled) = by_artefact item.artefact h in (item, refl, own, filled)
  where
    apart : false ≡ true → ⊥
    apart h = cc

    by_artefact :
        (o : Option String)
        → contains (elim o [ none ↦ [] | some b ↦ if str_eq b "" then [] else b ∷ [] ]) a ≡ true
        → (o ≡ some a) × (str_eq a "" ≡ false)
    by_artefact none h = cc
    by_artefact (some b) h = elim (Bool-cases (str_eq b "")) [
      | inl empty ↦ absurd (apart (sym (rw empty refl) ∙ h))
      | inr filled ↦
          let same : b ≡ a = (eq_iff b a).0 (ground (arith, h, filled)) in
          (ap some same, ap (λ s. str_eq s "") (sym same) ∙ filled)
    ]

module _ (items : List GateItem) where
  abbrev ExcludedBy : List Resolution → String → Type 0
  ExcludedBy rs a =
      (r : Resolution) × (item : GateItem) × Memᴰ r rs
      × (r.decision ≡ exclude_from_deposit)
      × (item_by_id r.item_id items ≡ some item)
      × (item.artefact ≡ some a)
      × (str_eq a "" ≡ false)

  by_own :
      (r : Resolution) (rs : List Resolution) (a : String) (b : Bool) (more : Bool)
      → is_exclusion r.decision ≡ b
      → (contains (if b then artefact_named (item_by_id r.item_id items) else []) a || more) ≡ true
      → (more ≡ true → ExcludedBy rs a)
      → ExcludedBy (r ∷ rs) a
  by_own r rs a true more e h later =
      elim (Bool-cases (contains (artefact_named (item_by_id r.item_id items)) a)) [
        | inl own ↦
            let (item, about, artefact, filled) =
              artefact_named-contains (item_by_id r.item_id items) a own in
            (r, item, head refl, is_exclusion-true r.decision e, about, artefact, filled)
        | inr other ↦
            let (q, item, m, d, i, f, n) = later (ground (arith, h, other)) in
            (q, item, tail m, d, i, f, n)
      ]
  by_own r rs a false more e h later =
      let (q, item, m, d, i, f, n) = later h in (q, item, tail m, d, i, f, n)

  -- An excluded artefact is the artefact of an item that was decided with an exclusion.
  excluded-contains :
      (rs : List Resolution) (a : String)
      → contains (excluded_artefacts items rs) a ≡ true
      → ExcludedBy rs a
  unfolding excluded_artefacts
  excluded-contains [] a h = cc
  excluded-contains (r ∷ rs) a h =
      by_own r rs a (is_exclusion r.decision) (contains (excluded_artefacts items rs) a) refl
        (sym (
            contains-append
              (if is_exclusion r.decision then artefact_named (item_by_id r.item_id items) else [])
              (excluded_artefacts items rs) a)
          ∙ h)
        (excluded-contains rs a)

any-contains :
    (excluded keys : List String)
    → any (contains excluded) keys ≡ true
    → (a : String) × (contains excluded a ≡ true) × (contains keys a ≡ true)
any-contains excluded [] h = cc
any-contains excluded (k ∷ keys) h = elim (Bool-cases (contains excluded k)) [
  | inl own ↦ (k, own, ground (arith, str_eq_refl k))
  | inr other ↦
      let (a, out, among) = any-contains excluded keys (ground (arith, h, other)) in
      (a, out, ground (arith, among))
]

contains-any :
    (excluded keys : List String) (a : String)
    → contains excluded a ≡ true
    → contains keys a ≡ true
    → any (contains excluded) keys ≡ true
contains-any excluded [] a out among = cc
contains-any excluded (k ∷ keys) a out among =
    ground (arith, contains-any excluded keys a out, eq_iff k a)

module _ (state : GateState) (unpacked : Option PurePath) (p : PurePath) where
  abbrev pub excluded : List String
  excluded = excluded_artefacts state.items state.resolutions

  Withheld-any :
      Withheld state unpacked p → any (contains excluded) (exclusion_keys p unpacked) ≡ true
  Withheld-any w =
      contains-any excluded (exclusion_keys p unpacked) w.artefact
        (contains-excluded state.items state.resolutions w.resolution w.item w.artefact w.recorded
          w.excludes w.about w.has_artefact w.not_empty)
        (exclusion_keys-Names unpacked p w.artefact w.named)

  any-Withheld :
      any (contains excluded) (exclusion_keys p unpacked) ≡ true → Withheld state unpacked p
  any-Withheld h =
      let (a, out, among) = any-contains excluded (exclusion_keys p unpacked) h in
      let (r, item, m, d, i, e, n) = excluded-contains state.items state.resolutions a out in
      record {
        resolution = r;
        item = item;
        artefact = a;
        recorded = m;
        excludes = d;
        about = i;
        has_artefact = e;
        not_empty = n;
        named = Names-exclusion_keys unpacked p a among;
      }

  -- What is uploaded are exactly the registered files that no person withheld. A file is withheld
  -- by a decision to exclude the artefact of an item of the gate, if the artefact names the file: by
  -- its name, by its path, or by its path below the directory that the material was unpacked to.
  pub excluded_never_uploaded :
      (artefacts : List PurePath)
      → Memᴰ p (artefacts_to_upload artefacts excluded unpacked)
        ↔ (Memᴰ p artefacts × ¬ Withheld state unpacked p)
  unfolding artefacts_to_upload
  excluded_never_uploaded artefacts = (
    λ up.
        let (place, clear) =
          Memᴰ-keep_if (λ q. not (any (contains excluded) (exclusion_keys q unpacked))) artefacts
            up in
        (place, λ w. absurd (apart (Withheld-any w) clear)),
    λ (place, free).
        keep_if-Memᴰ (λ q. not (any (contains excluded) (exclusion_keys q unpacked))) artefacts
          place
          (clear_of (any (contains excluded) (exclusion_keys p unpacked)) refl
            (λ h. free (any-Withheld h))),
  )
    where
      apart : {b : Bool} → b ≡ true → not b ≡ true → ⊥
      apart h e = cc

      clear_of :
          (b : Bool)
          → any (contains excluded) (exclusion_keys p unpacked) ≡ b
          → (any (contains excluded) (exclusion_keys p unpacked) ≡ true → ⊥)
          → not b ≡ true
      clear_of true e free = absurd (free e)
      clear_of false e free = refl
