-- ===== src/Config/Files.antt =====
-- `discoverConfigFiles` of pkg/config/loader.go. `os.Stat` and `filepath.Join`, of a directory and
-- the parts of a file name, are parameters.
pub mod Cascade
use lakta.Prelude.{String, Bool, Option, none, some, List, [], ◌∷◌, ◌++◌, if◌then◌else◌}

pub data Format : Type 0 where
  yaml yml json toml : Format

-- `getSupportedFormats`, in this order.
abbrev pub supported_formats : List Format
supported_formats = yaml ∷ yml ∷ json ∷ toml ∷ []

-- A file of the cascade: the base name, or the base name and the profile, and the parser.
pub data FileName : Type 0 where
  base : Format → FileName
  overlay : String → Format → FileName

pub record ConfigFile : Type 0 where
  pub path : String
  pub parser : Format

abbrev pub keep_if : Bool → ConfigFile → List ConfigFile
keep_if b f = if b then f ∷ [] else []

module _ (join : String → FileName → String) (exists : String → Bool) where
  unfoldable pub discover_one : String → Option String → Format → List ConfigFile
  discover_one dir none format =
      let path = join dir (base format) in
      keep_if (exists path) (record { path = path; parser = format })
  discover_one dir (some profile) format =
      let path = join dir (base format) in
      let over = join dir (overlay profile format) in
      keep_if (exists path) (record { path = path; parser = format })
      ++ keep_if (exists over) (record { path = over; parser = format })

  unfoldable pub discover_formats : String → Option String → List Format → List ConfigFile
  discover_formats dir profile [] = []
  discover_formats dir profile (format ∷ rest) =
      discover_one dir profile format ++ discover_formats dir profile rest

  -- The profile is `none` where the source has the empty string.
  unfoldable pub discover_config_files : Option String → List String → List ConfigFile
  unfolding discover_formats discover_one
  discover_config_files profile [] = []
  discover_config_files profile (dir ∷ dirs) =
      discover_formats dir profile supported_formats ++ discover_config_files profile dirs
