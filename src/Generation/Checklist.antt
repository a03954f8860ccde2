-- ===== src/Generation/Checklist.antt =====
-- What the prompts and the document get of a posting's signals, and what is read off a response
-- (internal/generation/generate.go: buildSkillsChecklist, writeSection;
-- internal/generation/extractor.go: documentJDSignals, forDocument, seniorityEnum, extractText,
-- stripCodeFence).
use role_model.Prelude.{
  ◌-◌, List, [], ◌∷◌, ◌++◌, map, Option, none, some, if◌then◌else◌, drop, take, length,
}
use role_model.Prelude.Results.{Result, ok, err}
use role_model.GoText.{Str, codes, str_eq, is_empty, starts_with, ends_with, Unicode, trim_space}
use role_model.GoText.Splitting.{join}
use role_model.FitGate.Signals.{JdSignals}
use role_model.Vocabulary.{CareerLevel, Framings, default_career_levels}

abbrev pub break : Str
break = 10 ∷ []

unfoldable pub write_entries : List Str → Str
write_entries [] = []
write_entries (e ∷ entries) = codes "- " ++ (e ++ (break ++ write_entries entries))

abbrev pub entries_or_note : List Str → Str
entries_or_note [] = codes "(none listed)" ++ break
entries_or_note (e ∷ entries) = write_entries (e ∷ entries)

unfoldable pub write_section : Str → List Str → Str
unfolding write_entries
write_section label entries = label ++ (codes ":" ++ (break ++ entries_or_note entries))

-- `if len(required) == 0 { required = signals.PrioritySkills }`
abbrev pub required_or_priority : List Str → List Str → List Str
required_or_priority [] priority = priority
required_or_priority (r ∷ required) priority = r ∷ required

-- The signals may be missing (`none`) or unreadable (`some none`).
unfoldable pub build_skills_checklist : Option (Option JdSignals) → Result Str Str
unfolding write_section
build_skills_checklist none = ok (codes "(no jd_signals available)")
build_skills_checklist (some none) = err (codes "parse jd_signals for checklist")
build_skills_checklist (some (some signals)) = ok (
    write_section (codes "Required skills")
      (required_or_priority signals.required_skills signals.priority_skills)
    ++ (write_section (codes "Preferred skills") signals.preferred_skills
        ++ write_section (codes "Core competencies") signals.core_competencies))

pub record DocumentJdSignals : Type 0 where
  pub required_skills : List Str
  pub preferred_skills : List Str
  pub seniority : Str
  pub industry : Str
  pub work_arrangement : Str
  pub culture_signals : List Str

unfoldable pub for_document : JdSignals → DocumentJdSignals
for_document s = record {
  required_skills = required_or_priority s.required_skills s.priority_skills;
  preferred_skills = s.preferred_skills;
  seniority = s.seniority;
  industry = s.screening_summary.industry;
  work_arrangement = s.screening_summary.work_arrangement;
  culture_signals = s.culture_signals;
}

-- Joined values in quotes; no level gives the empty text, as no part does.
unfoldable pub seniority_enum : List CareerLevel → Str
unfolding join
seniority_enum levels = join (codes ", ") (map (λ l. b'"' ∷ (l.value ++ b'"' ∷ [])) levels)

abbrev pub levels_or_default : Framings → List CareerLevel → List CareerLevel
levels_or_default framing [] = default_career_levels framing
levels_or_default framing (l ∷ levels) = l ∷ levels

-- A block of a response.
pub record Block : Type 0 where
  pub kind : Str
  pub text : Str

unfoldable pub text_of : List Block → Str
text_of [] = []
text_of (b ∷ content) =
    let rest = text_of content in if str_eq b.kind (codes "text") then b.text ++ rest else rest

-- `none` is the error for a response with no text.
unfoldable pub extract_text : List Block → Option Str
unfolding text_of
extract_text content = let text = text_of content in if is_empty text then none else some text

abbrev pub trim_prefix : Str → Str → Str
trim_prefix prefix s = if starts_with prefix s then drop (length prefix) s else s

abbrev pub trim_suffix : Str → Str → Str
trim_suffix suffix s = if ends_with suffix s then take (length s - length suffix) s else s

module _ ⦃u : Unicode⦄ where
  unfoldable pub strip_code_fence : Str → Str
  strip_code_fence s = trim_space (
      trim_suffix (codes "```")
        (trim_prefix (codes "```") (trim_prefix (codes "```json") (trim_space s))))
