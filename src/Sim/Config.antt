-- ===== src/Sim/Config.antt =====
-- include/besm-666/sim/config.hpp and src/sim/config.cpp: the configuration and its builder.
use besm.Prelude.{ℕ, List, [], ◌∷◌, ◌++◌, Option, none, some}
use besm.Memory.Range.{Range}

-- A path is its characters.
pub record Config : Type 0 where
  pub executable_path : List ℕ
  pub ram_ranges : List Range
  pub ram_page_size : ℕ
  pub ram_chunk_size : ℕ

-- `ConfigBuilder()`, over the sizes as they were found: nothing sets them.
unfoldable pub new_builder : ℕ → ℕ → Config
new_builder page_size chunk_size = record {
  executable_path = [];
  ram_ranges = [];
  ram_page_size = page_size;
  ram_chunk_size = chunk_size;
}

unfoldable pub set_executable_path : List ℕ → Config → Config
set_executable_path path config = record config { executable_path = path }

-- `push_back`
unfoldable pub add_ram_range : Range → Config → Config
add_ram_range range config = record config { ram_ranges = config.ram_ranges ++ (range ∷ []) }

unfoldable pub set_ram_page_size : ℕ → Config → Config
set_ram_page_size page_size config = record config { ram_page_size = page_size }

unfoldable pub set_ram_chunk_size : ℕ → Config → Config
set_ram_chunk_size chunk_size config = record config { ram_chunk_size = chunk_size }

-- `build` with `validateState`; `none` is `InvalidConfiguration`.
unfoldable pub build : Config → Option Config
build config = elim config.executable_path [ [] ↦ none | c ∷ path ↦ some config ]
