-- ===== src/Inventory/Provenance.antt =====
-- cli/src/domain/provenance.rs: the labels that a lab writes on its containers.
use catallaxy.Prelude.{◌≡◌, refl, false, some, [], ◌∷◌, String, Map, is_empty}
use catallaxy.Inventory.{lab_of, flake_of}

pub record Provenance : Type 0 where
  pub lab : String
  pub flake : String

-- `Provenance::labels`
unfoldable pub labels : Provenance → String → Map String
labels self service =
    ("catallaxy.io/managed-by", "catallaxy")
    ∷ ("catallaxy.io/schema", "1")
    ∷ ("catallaxy.io/lab", self.lab)
    ∷ ("catallaxy.io/flake", self.flake)
    ∷ ("catallaxy.io/service", service)
    ∷ []

-- The labels that a lab writes name it and its flake, where these are not empty.
lab_of-labels :
    (self : Provenance) (service : String)
    → is_empty self.lab ≡ false
    → is_empty self.flake ≡ false
    → (lab_of (labels self service) ≡ some self.lab)
      × (flake_of (labels self service) ≡ some self.flake)
unfolding labels lab_of flake_of
lab_of-labels self service h k = (rw h refl, rw k refl)
