-- ===== src/FitGate/Samples.antt =====
-- A small profile and a posting, and what scoring makes of them.
use role_model.Prelude.{◌≡◌, refl, true, false, List, [], ◌∷◌}
use role_model.Prelude.Int.{pos}
use role_model.GoText.{
  Str, codes, str_eq, rune_len, byte_len, starts_with, ends_with, split, fields_func, to_lower,
  equal_fold, trim_space,
}
use role_model.GoText.Ascii.{ascii}
use role_model.FitGate.Signals.{JdSignals, ProficiencyLevel, Preference, SkillTerm}
use role_model.FitGate.Tokens.{
  fold_plural, runs_eq, run_at, drop_last, is_separator, tokenize, contains_phrase,
}
use role_model.FitGate.Alternatives.{
  split_alternatives, key_set, group_of, is_subset, collapse_subsumed,
}
use role_model.FitGate.Levels.{
  read, write, level_key, write_aliases, write_all_aliases, write_values, new_level_scale,
  default_level_scale, rank, required_level_for, strongest_proficiency,
}
use role_model.FitGate.Matching.{matches_term, matches_signal, preference_matches}
use role_model.FitGate.Skills.{
  named_in, append_unique, evidence_names, gather_skills, gather, first_category_of, satisfies,
}
use role_model.FitGate.Capability.{
  clamp_score, dedupe_competencies, award, score, tally_of, score_capability_fit,
}
use role_model.FitGate.Preferences.{
  pref_fields_for, answers_all, core_practice_answered, preference_answered, place, place_all,
  score_preference_fit,
}

abbrev pub skill : Str → List Str → Str → List Str → Str → SkillTerm
skill name aliases category category_aliases proficiency = record {
  name = name;
  aliases = aliases;
  category = category;
  category_aliases = category_aliases;
  proficiency = proficiency;
}

abbrev pub go : SkillTerm
go = skill (codes "Go") (codes "Golang" ∷ []) (codes "Languages") [] (codes "novice")

abbrev pub jenkins : SkillTerm
jenkins = skill (codes "Jenkins") [] (codes "Delivery") (codes "CI/CD" ∷ []) (codes "expert")

abbrev pub profile : List SkillTerm
profile = go ∷ jenkins ∷ []

abbrev pub posting : JdSignals
posting = record {
  required_skills = codes "Java | Golang" ∷ codes "Rust" ∷ codes "Jenkins" ∷ [];
  preferred_skills = codes "CI/CD" ∷ [];
  core_competencies = codes "Jenkins" ∷ codes "mentoring" ∷ [];
  core_practice = codes "Java | Python" ∷ codes "Python" ∷ [];
  skill_levels =
      record {
        requirement = codes "java | golang";
        level = codes "Expert";
        signal = codes "expert Go";
      }
      ∷ [];
  seniority = codes "senior";
  priority_skills = [];
  culture_signals = codes "small team" ∷ [];
  screening_summary = record { industry = codes "logistics"; work_arrangement = codes "remote" };
}

-- The same posting with no depth stated.
abbrev pub plain_posting : JdSignals
plain_posting = record posting { skill_levels = [] }

abbrev pub novice : ProficiencyLevel
novice = record { value = codes "novice"; rank = pos 1; aliases = codes "expert" ∷ [] }

abbrev pub expert : ProficiencyLevel
expert = record { value = codes "expert"; rank = pos 3; aliases = codes "deep" ∷ [] }

abbrev pub preference : Str → Str → List Str → Preference
preference preference_type label aliases = record {
  preference_type = preference_type;
  label = label;
  sentiment = codes "positive";
  is_hard_gate = false;
  aliases = aliases;
}

abbrev pub python_gate : Preference
python_gate = record (preference (codes "core_practice") (codes "Python") []) {
  sentiment = codes "negative";
  is_hard_gate = true;
}

abbrev pub small_team : Preference
small_team = preference (codes "role_shape") (codes "small teams") []

unfoldable pub unfold_text : Unit {0}
unfolding to_lower equal_fold trim_space split starts_with fields_func fold_plural ends_with
    byte_len rune_len drop_last str_eq is_separator tokenize run_at runs_eq contains_phrase
unfold_text = tt

unfoldable pub unfold_gate : Unit {0}
unfolding unfold_text split_alternatives group_of key_set is_subset collapse_subsumed matches_term
    matches_signal preference_matches named_in append_unique evidence_names gather_skills gather
    first_category_of satisfies read write level_key write_aliases write_all_aliases write_values
    new_level_scale default_level_scale rank required_level_for strongest_proficiency
    dedupe_competencies award score tally_of clamp_score score_capability_fit pref_fields_for
    answers_all core_practice_answered preference_answered place place_all score_preference_fit
unfold_gate = tt

tokens_of_names :
    (tokenize (codes "TypeScript / Node.js APIs")
      ≡ codes "typescript" ∷ codes "node" ∷ codes "js" ∷ codes "api" ∷ [])
    × (contains_phrase (codes "C++") (codes "C# / .NET") ≡ false)
    × (contains_phrase (codes "go") (codes "mongodb") ≡ false)
unfolding unfold_text
tokens_of_names = (refl, refl, refl)

collapsed :
    collapse_subsumed (codes "Java | Python" ∷ codes "Python" ∷ codes "Java" ∷ [])
    ≡ codes "Java | Python" ∷ []
unfolding unfold_gate
collapsed = refl

-- "Golang" is met by the alias of Go, but not at the depth asked for: 2 of 4 half points; "Rust" is a
-- gap; "Jenkins" 4; "CI/CD" by category 2; "Jenkins" is no second competency and "mentoring" is not
-- met: 8 half points of 16.
scored :
    (score_capability_fit profile posting (new_level_scale (novice ∷ expert ∷ []))).score
    ≡ record { num = 800; den = 16 }
unfolding unfold_gate
scored = refl

gapped :
    (score_capability_fit profile posting (new_level_scale (novice ∷ expert ∷ []))).gaps
    ≡ codes "Rust" ∷ []
unfolding unfold_gate
gapped = refl

-- A group with a way out does not trip the gate.
not_gated : (score_preference_fit (python_gate ∷ small_team ∷ []) posting).gate_hits ≡ []
unfolding unfold_gate
not_gated = refl
