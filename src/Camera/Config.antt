-- ===== src/Camera/Config.antt =====
-- The configuration of the encoders from the parameters.
use sanbao_prot.Base.{
  ℕ, ◌≤◌, ◌≡◌, refl, ap, ◌∙◌, Bool, true, false, List, [], ◌++◌, Bytes, length, if◌then◌else◌,
  Bool-cases, inl, inr, arith, eqb_refl,
}
use sanbao_prot.Camera.{
  Types, in_table, config_video, config_image, config_video_resolution,
  config_adas_video_resolution, adas_reslution, image_reslution,
}
use sanbao_prot.Field.Laws.{here, there}
use sanbao_prot.Field.{get_field}
use sanbao_prot.Para.Adas
use sanbao_prot.System.{InRange}

-- A type that was set, or one that is not in the table, calls nothing.
config_video_again :
    (table : List (ℕ × ℕ)) (rates : List ℕ) (index : ℕ) (s t : Types)
    → t.video ≡ (if in_table index table then index else s.video)
    → config_video table rates index t ≡ []
unfolding config_video
config_video_again table rates index s t e = elim (Bool-cases (in_table index table)) [
  | inl known ↦
      let set : t.video ≡ index = e ∙ ap (λ b. if b then index else s.video) known in
      rw (set, eqb_refl index) refl
  | inr out ↦ ground (arith, out)
]

config_image_again :
    (fps index : ℕ) (s t : Types)
    → t.image ≡ (if in_table index image_reslution then index else s.image)
    → config_image fps index t ≡ []
unfolding config_image
config_image_again fps index s t e = elim (Bool-cases (in_table index image_reslution)) [
  | inl known ↦
      let set : t.image ≡ index = e ∙ ap (λ b. if b then index else s.image) known in
      rw (set, eqb_refl index) refl
  | inr out ↦ ground (arith, out)
]

set_again : (b : Bool) (x y : ℕ) → (if b then x else (if b then x else y)) ≡ (if b then x else y)
set_again true x y = refl
set_again false x y = refl

-- Whatever the parameters are, a second configuration with the same parameters, as each round of the
-- media thread without an order makes it, calls neither the recorder nor the encoder.
pub config_video_resolution_twice :
    (table : List (ℕ × ℕ)) (rates : List ℕ) (fps : ℕ) (para : Bytes) (s : Types)
    → let t = (config_video_resolution table rates fps para s).1 in
      config_video_resolution table rates fps para t ≡ ([], t)
unfolding config_video_resolution
config_video_resolution_twice table rates fps para s =
    let t = (config_video_resolution table rates fps para s).1 in
    let index1 = get_field para Adas.video_resolution in
    let index2 = get_field para Adas.image_resolution in
    let none_v = config_video_again table rates index1 s t refl in
    let none_i = config_image_again fps index2 s t refl in
    let calls : config_video table rates index1 t ++ config_image fps index2 t ≡ [] =
      rw (none_v, none_i) refl in
    let same_v = set_again (in_table index1 table) index1 s.video in
    let same_i = set_again (in_table index2 image_reslution) index2 s.image in
    ap (λ c. (c, (config_video_resolution table rates fps para t).1)) calls
    ∙ ap
        (λ v. (
          [],
          record { video = v; image = if in_table index2 image_reslution then index2 else t.image },
        ))
        same_v
    ∙ ap (λ i. ([], record { video = t.video; image = i })) same_i

in_table_lem :
    (index : ℕ) (table : List (ℕ × ℕ))
    → 1 ≤ index
    → index ≤ length table
    → in_table index table ≡ true
unfolding in_table
in_table_lem index table pos le = ground arith

-- For ADAS parameters in their ranges, what was set takes effect: the types that are recorded are
-- those of the parameters, whatever they were before.
pub config_adas_video_resolution-settles :
    (rates : List ℕ) (fps : ℕ) (para : Bytes) (s : Types)
    → InRange para
    → let t = (config_adas_video_resolution rates fps para s).1 in
      (t.video ≡ get_field para Adas.video_resolution)
      × (t.image ≡ get_field para Adas.image_resolution)
unfolding config_adas_video_resolution config_video_resolution
config_adas_video_resolution-settles rates fps para s ranges =
    let (v_lo, v_hi) =
      ranges _ (there (there (there (there (there (there (there (there here)))))))) in
    let (i_lo, i_hi) = ranges _ (there (there (there (there (there (there (there here))))))) in
    let v = in_table_lem (get_field para Adas.video_resolution) adas_reslution v_lo v_hi in
    let i = in_table_lem (get_field para Adas.image_resolution) image_reslution i_lo i_hi in
    (rw v refl, rw i refl)
