-- ===== src/Versions/Parse/Tests.antt =====
-- Texts parsed to versions and printed, and the theorems at concrete inputs.
use v8app.Base.{◌≡◌, refl, true, some, none, [], arith, codes, negsuc}
use v8app.Versions.{new_version, split, value_from}
use v8app.Versions.Parse.{
  Matches, regex_match, cut, core_matches, group_matches, set_version_string,
}
use v8app.Versions.Parse.RoundTrip.{set_version_string-get, set_version_string-overflow}

abbrev alpha : Matches
alpha = record {
  major = codes "1";
  minor = codes "20";
  patch = codes "3";
  pre_release = some (codes "alpha.1");
  build = some (codes "b-5");
}

alpha_match : regex_match (codes "1.20.3-alpha.1+b-5") ≡ some alpha
unfolding regex_match cut core_matches group_matches split
alpha_match = refl

leading_zero_test : regex_match (codes "1.02.3") ≡ none
unfolding regex_match cut core_matches group_matches split
leading_zero_test = refl

set_version_string-get_example :
    ((set_version_string (codes "1.20.3-alpha.1+b-5") new_version).0 ≡ true)
    × ((set_version_string (codes "1.20.3-alpha.1+b-5") new_version).1.version
        ≡ codes "1.20.3-alpha.1+b-5")
unfolding value_from
set_version_string-get_example =
    set_version_string-get (codes "1.20.3-alpha.1+b-5") new_version alpha alpha_match (omega arith)
      (omega arith) (omega arith)

abbrev huge : Matches
huge = record {
  major = codes "3000000000";
  minor = codes "0";
  patch = codes "0";
  pre_release = none;
  build = none;
}

huge_match : regex_match (codes "3000000000.0.0") ≡ some huge
unfolding regex_match cut core_matches group_matches split
huge_match = refl

set_version_string-overflow_example :
    ((set_version_string (codes "3000000000.0.0") new_version).0 ≡ true)
    × ((set_version_string (codes "3000000000.0.0") new_version).1.major ≡ negsuc 0)
    × ((set_version_string (codes "3000000000.0.0") new_version).1.version ≡ [])
unfolding value_from
set_version_string-overflow_example =
    set_version_string-overflow (codes "3000000000.0.0") new_version huge huge_match (omega arith)
