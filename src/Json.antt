-- ===== src/Json.antt =====
-- JSON values as the program holds them: `Any` in a node's `config` and in a run's state.
-- A finite float is `m / 2 ^ k`, so that numbers compare exactly as in Python; NaN and the
-- infinities are left out.
use agenstfer_agi.Base.{ℕ, String, Bool}

-- `negsuc n` is -(n + 1).
pub data ℤ : Type 0 where
  pos : ℕ → ℤ
  negsuc : ℕ → ℤ

mutual
  pub data Json : Type 0 where
    null : Json
    bool : Bool → Json
    num : ℤ → ℕ → Json
    str : String → Json
    arr : Items → Json
    obj : Fields → Json

  pub data Items : Type 0 where
    nil : Items
    cons : Json → Items → Items

  pub data Fields : Type 0 where
    end : Fields
    field : String → Json → Fields → Fields
