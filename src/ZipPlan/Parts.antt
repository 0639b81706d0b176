-- ===== src/ZipPlan/Parts.antt =====
-- The plan as a whole: which tracks its parts hold, how large they are, how they are named.
use alac_bot.Prelude.{
  ℕ, suc, ◌+◌, ◌≤◌, ◌<◌, ◌≡◌, refl, ap, sym, subst, ◌∙◌, not, ◌||◌, Option, some, List, [], ◌∷◌,
  arith, ltb, ◌==◌, All, map, length, get_elem?, zero,
}
use alac_bot.Prelude.Text.{Text, codes}
use alac_bot.Prelude.Words.{u64_mod}
use alac_bot.Filename.Bounds.{IsName, sanitize_and_bound-IsName}
use alac_bot.ZipPlan.{
  ZipTrackEntry, ZipPartPlan, Naming, Result, ok, err, is_empty, group_tracks, ◌>>=◌, invalid_limit,
  check_tracks, cover_bytes, usable_bytes, part_plan, number_parts, plan_zip_parts_with_codec,
  empty,
}
use alac_bot.ZipPlan.Groups.{
  joined, sizes, ensure-ok, IsGroup, joined-group_tracks, All-group_tracks, start-Current,
}

pub bind-ok {ℓ κ} :
    {A : Type ℓ} {B : Type κ} (m : Result A) (f : A → Result B) (b : B)
    → (m >>= f) ≡ ok b
    → (a : A) × (m ≡ ok a) × (f a ≡ ok b)
bind-ok (ok a) f b h = (a, refl, h)
bind-ok (err e) f b h = cc

ok-injective {ℓ} : {A : Type ℓ} {a b : A} → ok a ≡ ok b → a ≡ b
ok-injective h = cc

part_eq {ℓ} : {A : Type ℓ} {a b : A} → some a ≡ some b → a ≡ b
part_eq h = cc

-- What a successful plan has computed on the way.
pub record Planned (metadata : Text → Option ℕ) (n : Naming) (tracks : List ZipTrackEntry)
    (cover : Option Text) (max_part_bytes : ℕ) (parts : List ZipPartPlan) : Type 0 where
  pub cover_size : ℕ
  pub usable : ℕ
  pub groups : List (List ZipTrackEntry)
  pub cover_read : cover_bytes metadata cover ≡ ok cover_size
  pub usable_left : usable_bytes tracks cover max_part_bytes ≡ ok usable
  pub grouped : group_tracks usable cover_size [] [] cover_size tracks ≡ ok groups
  pub numbered : number_parts n cover (length groups) 0 groups ≡ parts

map-number_parts :
    (n : Naming) (cover : Option Text) (total i : ℕ) (gs : List (List ZipTrackEntry))
    → map (λ (p : ZipPartPlan). p.tracks) (number_parts n cover total i gs) ≡ gs
unfolding number_parts part_plan
map-number_parts n cover total i [] = refl
map-number_parts n cover total i (g ∷ gs) =
    ap (λ l. g ∷ l) (map-number_parts n cover total (i + 1) gs)

length-number_parts :
    (n : Naming) (cover : Option Text) (total i : ℕ) (gs : List (List ZipTrackEntry))
    → length (number_parts n cover total i gs) ≡ length gs
unfolding number_parts
length-number_parts n cover total i [] = refl
length-number_parts n cover total i (g ∷ gs) = ap suc (length-number_parts n cover total (i + 1) gs)

-- How the part at an index is labelled.
pub record IsLabelled (total index : ℕ) (p : ZipPartPlan) : Type 0 where
  pub numbered : p.part_index ≡ index + 1
  pub counted : p.total_parts ≡ total
  pub named : IsName 245 p.archive_filename

number_parts-IsLabelled :
    (n : Naming) (cover : Option Text) (total i k : ℕ) (gs : List (List ZipTrackEntry))
    (p : ZipPartPlan)
    → get_elem? (number_parts n cover total i gs) k ≡ some p
    → IsLabelled total (i + k) p
unfolding number_parts part_plan
number_parts-IsLabelled n cover total i k [] p h = cc
number_parts-IsLabelled n cover total i zero (g ∷ gs) p h =
    subst (IsLabelled total (i + zero)) (part_eq h) (record {
      numbered = omega arith;
      counted = refl;
      named = sanitize_and_bound-IsName 245 _ _ (omega arith);
    })
number_parts-IsLabelled n cover total i (suc k) (g ∷ gs) p h =
    let e : i + suc k ≡ i + 1 + k = omega arith in
    rw e (number_parts-IsLabelled n cover total (i + 1) k gs p h)

module _ (metadata : Text → Option ℕ) (n : Naming) (tracks : List ZipTrackEntry)
    (cover : Option Text) (max_part_bytes : ℕ) (parts : List ZipPartPlan)
    (planned : plan_zip_parts_with_codec metadata n tracks cover max_part_bytes ≡ ok parts) where
  plan-Planned : Planned metadata n tracks cover max_part_bytes parts
  unfolding plan_zip_parts_with_codec
  plan-Planned =
      let a = ensure-ok (not (is_empty tracks)) empty _ parts planned in
      let b = ensure-ok (not (max_part_bytes == 0)) invalid_limit _ parts a.1 in
      let c = bind-ok (check_tracks metadata (codes "manifest.json" ∷ []) tracks) _ parts b.1 in
      let d = bind-ok (cover_bytes metadata cover) _ parts c.2 in
      let e = bind-ok (usable_bytes tracks cover max_part_bytes) _ parts d.2 in
      let f = ensure-ok (not (e.0 == 0 || ltb e.0 d.0)) invalid_limit _ parts e.2 in
      let g = bind-ok (group_tracks e.0 d.0 [] [] d.0 tracks) _ parts f.1 in
      record {
        cover_size = d.0;
        usable = e.0;
        groups = g.0;
        cover_read = d.1;
        usable_left = e.1;
        grouped = g.1;
        numbered = ok-injective g.2;
      }

  -- The tracks of the parts, one part after the other, are the tracks that were given: each stands in
  -- exactly one part, in the album's order.
  pub joined-plan : joined (map (λ (p : ZipPartPlan). p.tracks) parts) ≡ tracks
  joined-plan =
      let v = plan-Planned in
      ap joined (ap (map (λ (p : ZipPartPlan). p.tracks)) (sym v.numbered))
      ∙ ap joined (map-number_parts n cover (length v.groups) 0 v.groups)
      ∙ joined-group_tracks v.usable v.cover_size tracks [] [] v.cover_size v.groups v.grouped

  -- No part is empty, and the tracks of a part fit, with the cover, into what the limit leaves beside
  -- the archive's overhead, unless the part is a single track.
  pub plan-IsGroup :
      (cover_size usable : ℕ) × (cover_bytes metadata cover ≡ ok cover_size)
      × (usable_bytes tracks cover max_part_bytes ≡ ok usable)
      × All (IsGroup usable cover_size) (map (λ (p : ZipPartPlan). p.tracks) parts)
  plan-IsGroup =
      let v = plan-Planned in
      (
        v.cover_size,
        v.usable,
        v.cover_read,
        v.usable_left,
        subst (All (IsGroup v.usable v.cover_size))
            (sym (map-number_parts n cover (length v.groups) 0 v.groups)
              ∙ ap (map (λ (p : ZipPartPlan). p.tracks)) v.numbered)
            (All-group_tracks v.usable v.cover_size tracks [] [] v.cover_size v.groups tt
              (start-Current v.usable v.cover_size) v.grouped),
      )

  -- The parts are numbered from 1 in their order, each carries their number, and each name is one that
  -- the file system takes, of at most 245 bytes.
  pub plan-IsLabelled :
      (k : ℕ) (p : ZipPartPlan) → get_elem? parts k ≡ some p → IsLabelled (length parts) k p
  plan-IsLabelled k p h =
      let v = plan-Planned in
      let total : length v.groups ≡ length parts =
        sym (length-number_parts n cover (length v.groups) 0 v.groups) ∙ ap length v.numbered in
      let e : 0 + k ≡ k = omega arith in
      subst (λ t. IsLabelled t k p) total
        (subst (λ i. IsLabelled (length v.groups) i p) e
          (number_parts-IsLabelled n cover (length v.groups) 0 k v.groups p
            (subst (λ l. get_elem? l k ≡ some p) (sym v.numbered) h)))

-- The limit of a part is not kept where the cover and a track that each fit do not fit together: the
-- loop returns such a track as a part of its own.
pub group_tracks-oversized :
    (usable cover_size : ℕ) (t : ZipTrackEntry)
    → t.file_size ≤ usable
    → usable < cover_size + t.file_size
    → cover_size + t.file_size < u64_mod
    → (g : List ZipTrackEntry) × (group_tracks usable cover_size [] [] cover_size (t ∷ [])
        ≡ ok (g ∷ []))
      × (usable < cover_size + sizes g)
unfolding group_tracks
group_tracks-oversized usable cover_size t fits over small = (t ∷ [], ground arith, omega arith)
