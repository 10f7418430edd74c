-- ===== src/Resource.antt =====
-- The list of media resources of common.cpp: `find_mm_resource`, `delete_mm_resource` and
-- `insert_mm_resouce`, each one step under `mm_resource_lock`.
use sanbao_prot.Base.{
  ℕ, suc, ◌+◌, ◌≡◌, ◌≢◌, refl, arith, Bool, List, [], ◌∷◌, ◌++◌, Option, none, some, ◌==◌, ◌&&◌,
  ◌||◌, if◌then◌else◌,
}
use sanbao_prot.Prot.{mm_photo, mm_video}
use sanbao_prot.Queue.{Ret, ok, fail}

-- A node: `mm_id` and `mm_type`, the fields that are looked at.
pub record MmInfo : Type 0 where
  pub mm_id : ℕ
  pub mm_type : ℕ

pub find_mm_resource : ℕ → List MmInfo → Option MmInfo
find_mm_resource id [] = none
find_mm_resource id (m ∷ ms) = if m.mm_id == id then some m else find_mm_resource id ms

-- The first photo or video of that id goes; another type of that id is passed over.
unfoldable pub delete_mm_resource : ℕ → List MmInfo → List MmInfo × Ret
delete_mm_resource id [] = ([], fail)
delete_mm_resource id (m ∷ ms) =
    let (rest, ret) = delete_mm_resource id ms in
    if m.mm_id == id && (m.mm_type == mm_photo || m.mm_type == mm_video)
    then (ms, ok)
    else (m ∷ rest, ret)

pub insert_mm_resouce : MmInfo → List MmInfo → List MmInfo
insert_mm_resouce m ms = ms ++ m ∷ []

-- Whether a node is a photo or a video of this id.
abbrev pub is_media : ℕ → MmInfo → Bool
is_media id m = m.mm_id == id && (m.mm_type == mm_photo || m.mm_type == mm_video)

-- How many photos and videos of this id the list has.
abbrev pub count_media : ℕ → List MmInfo → ℕ
count_media id [] = 0
count_media id (m ∷ ms) = (if is_media id m then 1 else 0) + count_media id ms

-- A delete takes one photo or video of the id off the list if there is one, and reports success
-- just then; the photos and videos of every other id stay.
pub delete_mm_resource-count_media :
    (id other : ℕ) (ms : List MmInfo)
    → other ≢ id
    → let (rest, ret) = delete_mm_resource id ms in
      (count_media id ms ≡ (elim ret [ ok ↦ suc (count_media id rest) | fail ↦ 0 ]))
      × (count_media other rest ≡ count_media other ms)
unfolding delete_mm_resource
delete_mm_resource-count_media id other [] ne = (refl, refl)
delete_mm_resource-count_media id other (m ∷ ms) ne =
    let (one, rest) = delete_mm_resource-count_media id other ms ne in
    (ground (arith, one), ground (arith, rest))
