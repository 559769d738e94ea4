-- ===== src/Tests/Packages.antt =====
-- tool/release_pipeline.py at a concrete directory with two packages for Linux.
use xfl_clash.Prelude.{
  ◌≡◌, refl, true, List, [], ◌∷◌, Text, codes, ◌==ₜ◌, not, Bool, inr, ok, err, some,
}
use xfl_clash.Pipeline.{Context, File, regular, move_all, normalize, rename_failed}
use xfl_clash.Pipeline.Renames.{IsKept, move_all-IsKept}

abbrev context : Context
context = record {
  flavor = codes "brand_a";
  platform = codes "linux";
  arch = codes "arm64";
  product_version = codes "1.2.3";
  base_version = codes "1.2.3";
  package_prefix = codes "Flow";
  package_app_name = codes "Flow";
  targets = codes "deb" ∷ codes "appimage" ∷ [];
}

abbrev dist : List File
dist =
    record { name = codes "a.deb"; kind = regular; content = 1 ∷ [] }
    ∷ record { name = codes "notes.txt"; kind = regular; content = [] }
    ∷ record { name = codes "a.AppImage"; kind = regular; content = 2 ∷ 3 ∷ [] }
    ∷ []

abbrev moved : List File
moved =
    record { name = codes "Flow-1.2.3-linux-arm64.deb"; kind = regular; content = 1 ∷ [] }
    ∷ record { name = codes "notes.txt"; kind = regular; content = [] }
    ∷ record {
      name = codes "Flow-1.2.3-linux-arm64.AppImage";
      kind = regular;
      content = 2 ∷ 3 ∷ [];
    }
    ∷ []

normalize_run : normalize (λ s t dir. true) (λ bytes. bytes) context (some dist) ≡ (
  ok (
      record { file = codes "Flow-1.2.3-linux-arm64.deb"; size = 1; sha256 = 1 ∷ [] }
      ∷ record { file = codes "Flow-1.2.3-linux-arm64.AppImage"; size = 2; sha256 = 2 ∷ 3 ∷ [] }
      ∷ []),
  some moved,
)
unfolding normalize
normalize_run = refl

-- The second rename is refused, and undoing the first is not.
abbrev refuses : Text → Text → List File → Bool
refuses s t dir = not (s ==ₜ codes "a.AppImage")

normalize_undone :
    normalize refuses (λ bytes. bytes) context (some dist) ≡ (err rename_failed, some dist)
unfolding normalize
normalize_undone = refl

abbrev plans : List (Text × Text)
plans =
    (codes "a.deb", codes "Flow-1.2.3-linux-arm64.deb")
    ∷ (codes "a.AppImage", codes "Flow-1.2.3-linux-arm64.AppImage")
    ∷ []

move_all-IsKept_example : IsKept dist (move_all refuses plans [] dist)
unfolding ◌==ₜ◌
move_all-IsKept_example =
    move_all-IsKept refuses plans dist (inr refl, (inr refl, tt)) ((refl, tt), (tt, tt))
      ((λ dir. refl), ((λ dir. refl), tt))
