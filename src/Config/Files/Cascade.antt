-- ===== src/Config/Files/Cascade.antt =====
-- The cascade is the candidates that exist, in a fixed order.
use mathlib.Core.Path.{ap₂}
use lakta.Prelude.{
  String, ◌≡◌, refl, sym, ◌∙◌, Bool, Option, none, some, List, [], ◌∷◌, ◌++◌, arith, if◌then◌else◌,
}
use lakta.Config.Files.{
  Format, FileName, base, overlay, ConfigFile, supported_formats, discover_one, discover_formats,
  discover_config_files,
}

abbrev pub keep : (ConfigFile → Bool) → List ConfigFile → List ConfigFile
keep p [] = []
keep p (f ∷ fs) = let rest = keep p fs in if p f then f ∷ rest else rest

keep-append :
    (p : ConfigFile → Bool) (xs ys : List ConfigFile) → keep p (xs ++ ys) ≡ keep p xs ++ keep p ys
keep-append p [] ys = refl
keep-append p (x ∷ xs) ys = ground (arith, keep-append p xs ys)

module _ (join : String → FileName → String) (exists : String → Bool) where
  -- Lowest precedence first: by directory, then by format, a profile's file right behind its base.
  abbrev pub candidates_in : String → Option String → List Format → List ConfigFile
  candidates_in dir profile [] = []
  candidates_in dir none (format ∷ rest) =
      record { path = join dir (base format); parser = format } ∷ candidates_in dir none rest
  candidates_in dir (some p) (format ∷ rest) =
      record { path = join dir (base format); parser = format }
      ∷ record { path = join dir (overlay p format); parser = format }
      ∷ candidates_in dir (some p) rest

  abbrev pub candidates : Option String → List String → List ConfigFile
  candidates profile [] = []
  candidates profile (dir ∷ dirs) =
      candidates_in dir profile supported_formats ++ candidates profile dirs

  in_dir :
      (dir : String) (profile : Option String) (formats : List Format)
      → discover_formats join exists dir profile formats
        ≡ keep (λ f. exists f.path) (candidates_in dir profile formats)
  unfolding discover_formats discover_one
  in_dir dir profile [] = refl
  in_dir dir none (format ∷ rest) = ground (arith, in_dir dir none rest)
  in_dir dir (some p) (format ∷ rest) = ground (arith, in_dir dir (some p) rest)

  -- The discovered files are exactly the candidates that exist, in the order of the cascade: by
  -- directory, then by format, and the file of the profile right behind its base file.
  pub discover_config_files-keep :
      (profile : Option String) (dirs : List String)
      → discover_config_files join exists profile dirs
        ≡ keep (λ f. exists f.path) (candidates profile dirs)
  unfolding discover_config_files
  discover_config_files-keep profile [] = refl
  discover_config_files-keep profile (dir ∷ dirs) =
      ap₂ ◌++◌ (in_dir dir profile supported_formats) (discover_config_files-keep profile dirs)
      ∙ sym (
          keep-append (λ f. exists f.path) (candidates_in dir profile supported_formats)
            (candidates profile dirs))
