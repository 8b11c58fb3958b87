-- ===== src/Versions/Tests.antt =====
-- Versions compared, and the theorems at concrete inputs.
use v8app.Base.{◌≡◌, ◌↔◌, refl, true, codes, pos}
use v8app.Versions.{
  VersionString, new_version, compare_versions, compare_tokens, compare_token, tokens, equal, less,
  split, convert_string_to_int, value_from,
}
use v8app.Versions.Transitive.{compare_versions_trans}
use v8app.Versions.Equality.{Same, compare_versions-equal}

abbrev first_alpha : VersionString
first_alpha = record new_version {
  valid = true;
  major = pos 1;
  minor = pos 0;
  patch = pos 0;
  pre_release = codes "alpha.9";
}

abbrev next_alpha : VersionString
next_alpha = record first_alpha { pre_release = codes "alpha.10" }

alpha_order : compare_versions first_alpha next_alpha ≡ less
unfolding compare_versions compare_tokens compare_token tokens split convert_string_to_int
    value_from
alpha_order = refl

compare_versions-equal_example :
    (compare_versions first_alpha next_alpha ≡ equal) ↔ Same first_alpha next_alpha
compare_versions-equal_example = compare_versions-equal first_alpha next_alpha refl refl

abbrev last_alpha : VersionString
last_alpha = record first_alpha { pre_release = codes "alpha.x" }

compare_versions_trans_example : compare_versions first_alpha last_alpha ≡ less
unfolding compare_versions compare_tokens compare_token tokens split convert_string_to_int
    value_from
compare_versions_trans_example =
    compare_versions_trans first_alpha next_alpha last_alpha refl refl refl refl refl
