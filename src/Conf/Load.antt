-- ===== src/Conf/Load.antt =====
-- Which documents the server loads, and what it can rely on afterwards.
use Prim.Native.String.{String}
use dungeon.Base.{
  ℕ, zero, suc, ◌≡◌, ◌≢◌, refl, ap, ◌⊎◌, inl, inr, ◌↔◌, Bool, true, false, Option, none, some, ℤ,
  pos, negsuc, minus_one, Option-cases, ok, fault, if◌then◌else◌, arith, ltb_ℤ,
}
use dungeon.Json.{Cjson, json_number, json_string, json_array}
use dungeon.Conf.{
  is_number, State, conf_create_default_config, conf_get_concurrent_max_internal,
  conf_get_log_level_internal, conf_get_module_dir_internal, conf_get_modules_desc_internal,
  conf_check_legal, conf_load_json, conf_new, conf_reload, conf_get_concurrent_max,
  conf_get_log_level, conf_get_module_dir, conf_get_modules_desc,
}

nonneg : (z : ℤ) → ltb_ℤ z (pos 0) ≡ false → (n : ℕ) × (z ≡ pos n)
nonneg (pos n) h = (n, refl)
nonneg (negsuc n) h = absurd (ground arith)

zero_or : (z : ℤ) → (z ≡ pos 0) ⊎ (z ≢ pos 0)
zero_or (pos zero) = inl refl
zero_or (pos (suc n)) = inr (λ e. cc)
zero_or (negsuc n) = inr (λ e. cc)

module _ (c : Cjson) where
  open c use {Json, kind, valueint, valuestring, object_item}

  -- The item of that name is missing, or satisfies `P`.
  abbrev pub Optional : (Json → Type 0) → Json → String → Type 0
  Optional P conf name =
      (object_item conf name ≡ none) ⊎ ((j : Json) × (object_item conf name ≡ some j) × P j)

  abbrev pub IsCount : Json → Type 0
  IsCount j = (kind j ≡ json_number) × ((n : ℕ) × (valueint j ≡ pos n))

  -- A document that the server accepts, in terms of its items.
  pub record IsLegal (conf : Json) : Type 0 where
    pub log_level : Optional IsCount conf "LogLevel"
    pub concurrent_max : Optional IsCount conf "ConcurrentMax"
    pub module_dir : Optional (λ j. kind j ≡ json_string) conf "ModuleDir"
    pub modules : (j : Json) × (object_item conf "Modules" ≡ some j) × (kind j ≡ json_array)

  -- A getter of a number with a default.
  count_or : Option Json → ℕ → ℤ
  count_or none d = pos d
  count_or (some j) d = if is_number (kind j) then valueint j else minus_one

  is_count : (j : Json) → ltb_ℤ (count_or (some j) 0) (pos 0) ≡ false → IsCount j
  unfolding count_or
  is_count j h = (ground arith, nonneg (valueint j) (ground arith))

  count_or-Optional :
      (conf : Json) (name : String) (d : ℕ)
      → (ltb_ℤ (count_or (object_item conf name) d) (pos 0) ≡ false) ↔ Optional IsCount conf name
  unfolding count_or
  count_or-Optional conf name d = (
    λ h. elim (Option-cases (object_item conf name)) [
      | inl e ↦ inl e
      | inr (j, e) ↦ inr (j, e, is_count j (ground arith))
    ],
    λ o. ground arith,
  )

  log_level-count :
      (conf : Json) → conf_get_log_level_internal c conf ≡ count_or (object_item conf "LogLevel") 6
  unfolding conf_get_log_level_internal count_or
  log_level-count conf = ground arith

  concurrent_max-count :
      (conf : Json)
      → conf_get_concurrent_max_internal c conf ≡ count_or (object_item conf "ConcurrentMax") 20000
  unfolding conf_get_concurrent_max_internal count_or
  concurrent_max-count conf = ground arith

  module_dir-Optional :
      (conf : Json)
      → ((dir : String) × (conf_get_module_dir_internal c conf ≡ some dir))
        ↔ Optional (λ j. kind j ≡ json_string) conf "ModuleDir"
  unfolding conf_get_module_dir_internal
  module_dir-Optional conf = (
    λ h. elim (Option-cases (object_item conf "ModuleDir")) [
      | inl e ↦ inl e
      | inr (j, e) ↦ inr (j, e, ground arith)
    ],
    λ o. elim o [ inl e ↦ ("./", ground arith) | inr (j, e, k) ↦ (valuestring j, ground arith) ],
  )

  modules-array :
      (conf : Json)
      → ((d : Json) × (conf_get_modules_desc_internal c conf ≡ some d))
        ↔ ((j : Json) × (object_item conf "Modules" ≡ some j) × (kind j ≡ json_array))
  unfolding conf_get_modules_desc_internal
  modules-array conf = (
    λ h. elim (Option-cases (object_item conf "Modules")) [
      | inl e ↦ absurd (ground arith)
      | inr (j, e) ↦ (j, e, ground arith)
    ],
    λ (j, e, k). (j, ground arith),
  )

  -- What `conf_check_legal` tests.
  check_legal-tests :
      (conf : Json)
      → (conf_check_legal c conf ≡ pos 0) ↔ (
          (ltb_ℤ (conf_get_log_level_internal c conf) (pos 0) ≡ false)
          × (ltb_ℤ (conf_get_concurrent_max_internal c conf) (pos 0) ≡ false)
          × ((dir : String) × (conf_get_module_dir_internal c conf ≡ some dir))
          × ((d : Json) × (conf_get_modules_desc_internal c conf ≡ some d)))
  unfolding conf_check_legal
  check_legal-tests conf = (
    λ h. (
      ground arith,
      ground arith,
      elim (Option-cases (conf_get_module_dir_internal c conf)) [
        | inl e ↦ absurd (ground arith)
        | inr r ↦ r
      ],
      elim (Option-cases (conf_get_modules_desc_internal c conf)) [
        | inl e ↦ absurd (ground arith)
        | inr r ↦ r
      ],
    ),
    λ h. ground arith,
  )

  -- `conf_check_legal` answers 0 for exactly the documents whose log level and concurrency are
  -- missing or numbers that are not negative, whose module directory is missing or a text, and
  -- whose modules are an array that is there.
  pub conf_check_legal-IsLegal : (conf : Json) → (conf_check_legal c conf ≡ pos 0) ↔ IsLegal conf
  conf_check_legal-IsLegal conf =
      let t = check_legal-tests conf in
      let l = count_or-Optional conf "LogLevel" 6 in
      let n = count_or-Optional conf "ConcurrentMax" 20000 in
      (
        λ h.
            let (a, b, d, m) = t.0 h in
            record {
              log_level = l.0 (rw log_level-count at a);
              concurrent_max = n.0 (rw concurrent_max-count at b);
              module_dir = (module_dir-Optional conf).0 d;
              modules = (modules-array conf).0 m;
            },
        λ v. t.1 (
          rw log_level-count (l.1 v.log_level),
          rw concurrent_max-count (n.1 v.concurrent_max),
          (module_dir-Optional conf).1 v.module_dir,
          (modules-array conf).1 v.modules,
        ),
      )

  -- A reload is atomic: either the file was read, is legal and is the new configuration, and the
  -- answer is 0; or the answer is -1 and the configuration is the old one.
  pub conf_reload_atomic :
      (named : Bool) (file : Option (Option Json)) (s : State c)
      → ((conf : Json) × (named ≡ true)
          × (file ≡ some (some conf))
          × IsLegal conf
          × (conf_reload c named file s ≡ (pos 0, some conf)))
        ⊎ (conf_reload c named file s ≡ (minus_one, s))
  unfolding conf_reload conf_load_json
  conf_reload_atomic true none s = inr refl
  conf_reload_atomic true (some none) s = inr refl
  conf_reload_atomic true (some (some conf)) s = elim (zero_or (conf_check_legal c conf)) [
    | inl e ↦ inl (conf, refl, refl, (conf_check_legal-IsLegal conf).0 e, ground arith)
    | inr e ↦ inr (ground arith)
  ]
  conf_reload_atomic false file s = inr refl

  -- With a legal configuration loaded the getters that the start-up relies on return: the log
  -- level and the concurrency are not negative, and the module directory and the array of the
  -- modules are there.
  pub getters-IsLegal :
      (conf : Json)
      → IsLegal conf
      → ((n : ℕ) × (conf_get_log_level c (some conf) ≡ ok (pos n)))
        × ((n : ℕ) × (conf_get_concurrent_max c (some conf) ≡ ok (pos n)))
        × ((dir : String) × (conf_get_module_dir c (some conf) ≡ ok (some dir)))
        × ((d : Json) × (conf_get_modules_desc c (some conf) ≡ ok (some d)) × (kind d ≡ json_array))
  unfolding conf_get_log_level conf_get_concurrent_max conf_get_module_dir conf_get_modules_desc
      conf_get_modules_desc_internal
  getters-IsLegal conf v =
      let l =
        nonneg (conf_get_log_level_internal c conf)
          (rw log_level-count ((count_or-Optional conf "LogLevel" 6).1 v.log_level)) in
      let n = nonneg (conf_get_concurrent_max_internal c conf) (
        rw concurrent_max-count
          ((count_or-Optional conf "ConcurrentMax" 20000).1 v.concurrent_max)) in
      let d = (module_dir-Optional conf).1 v.module_dir in
      (
        (l.0, ap ok l.1),
        (n.0, ap ok n.1),
        (d.0, ap ok d.1),
        (v.modules.0, ground (arith, v.modules.1), v.modules.2),
      )

  -- Without a file name `conf_new` never returns: it builds a text from NULL.
  pub conf_new-default :
      (file : Option (Option Json)) (s : State c) → conf_new c false file s ≡ fault
  unfolding conf_new conf_create_default_config
  conf_new-default file s = refl
