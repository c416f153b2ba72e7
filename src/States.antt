-- ===== src/States.antt =====
-- The GST state codes and the texts of an export invoice: api/src/common/constants/india-states.ts and
-- compliance.ts. `replace` puts its second argument in as it is.
use crossbill_back.Base.{
  ℕ, zero, suc, Bool, true, false, List, [], ◌∷◌, ◌++◌, Option, none, some, String, ◌&&◌, ltb, any,
  find?, length, if◌then◌else◌, get_or,
}
use crossbill_back.Base.Text.{Text, codes, text_eq}

pub record IndiaState : Type 0 where
  pub code : Text
  pub name : Text

abbrev state : String → String → IndiaState
state c n = record { code = codes c; name = codes n }

-- `INDIA_STATES`.
unfoldable pub india_states : List IndiaState
india_states =
    state "01" "Jammu & Kashmir"
    ∷ state "02" "Himachal Pradesh"
    ∷ state "03" "Punjab"
    ∷ state "04" "Chandigarh"
    ∷ state "05" "Uttarakhand"
    ∷ state "06" "Haryana"
    ∷ state "07" "Delhi"
    ∷ state "08" "Rajasthan"
    ∷ state "09" "Uttar Pradesh"
    ∷ state "10" "Bihar"
    ∷ state "11" "Sikkim"
    ∷ state "12" "Arunachal Pradesh"
    ∷ state "13" "Nagaland"
    ∷ state "14" "Manipur"
    ∷ state "15" "Mizoram"
    ∷ state "16" "Tripura"
    ∷ state "17" "Meghalaya"
    ∷ state "18" "Assam"
    ∷ state "19" "West Bengal"
    ∷ state "20" "Jharkhand"
    ∷ state "21" "Odisha"
    ∷ state "22" "Chhattisgarh"
    ∷ state "23" "Madhya Pradesh"
    ∷ state "24" "Gujarat"
    ∷ state "26" "Dadra & Nagar Haveli and Daman & Diu"
    ∷ state "27" "Maharashtra"
    ∷ state "29" "Karnataka"
    ∷ state "30" "Goa"
    ∷ state "31" "Lakshadweep"
    ∷ state "32" "Kerala"
    ∷ state "33" "Tamil Nadu"
    ∷ state "34" "Puducherry"
    ∷ state "35" "Andaman & Nicobar Islands"
    ∷ state "36" "Telangana"
    ∷ state "37" "Andhra Pradesh"
    ∷ state "38" "Ladakh"
    ∷ []

abbrev pub has_code : Text → IndiaState → Bool
has_code c s = text_eq s.code c

-- `s.slice(0, n)`.
abbrev pub first_chars : ℕ → Text → Text
first_chars zero s = []
first_chars (suc n) [] = []
first_chars (suc n) (c ∷ s) = c ∷ first_chars n s

unfoldable pub state_name : Option Text → Text
state_name none = codes "Unknown"
state_name (some c) = elim (find? (has_code c) india_states) [
  | none ↦ codes "Unknown"
  | some s ↦ s.name
]

unfoldable pub state_code_from_gstin : Option Text → Option Text
state_code_from_gstin none = none
state_code_from_gstin (some gstin) =
    let code = first_chars 2 gstin in
    if ltb (length gstin) 2
    then none
    else if any (has_code code) india_states
    then some code
    else none

abbrev starts_with : Text → Text → Bool
starts_with [] s = true
starts_with (c ∷ p) [] = false
starts_with (c ∷ p) (d ∷ s) = text_eq (c ∷ []) (d ∷ []) && starts_with p s

abbrev drop : ℕ → Text → Text
drop zero s = s
drop (suc n) [] = []
drop (suc n) (c ∷ s) = drop n s

-- `s.replace(pattern, by)`: the first occurrence.
abbrev replace : Text → Text → Text → Text
replace pattern by [] = []
replace pattern by (c ∷ s) =
    let rest = replace pattern by s in
    if starts_with pattern (c ∷ s) then by ++ drop (length pattern) (c ∷ s) else c ∷ rest

-- `EXPORT_DECLARATION_LUT` and its alternative.
export_declaration_lut : Text
export_declaration_lut =
    codes
      "Supply meant for export under LUT (Letter of Undertaking) without payment of Integrated Goods and Services Tax (IGST). LUT ARN: {{lutArn}}, FY: {{lutFy}}."

export_declaration_with_igst : Text
export_declaration_with_igst =
    codes
      "Supply meant for export with payment of Integrated Goods and Services Tax (IGST), eligible for refund of IGST paid."

abbrev pub place_of_supply_export : Text
place_of_supply_export = codes "Outside India (export of services)"

unfoldable pub render_declaration : Bool → Option Text → Option Text → Text
unfolding export_declaration_lut export_declaration_with_igst
render_declaration on_lut lut_arn lut_fy =
    if on_lut
    then replace (codes "{{lutFy}}") (get_or lut_fy (codes "N/A"))
        (replace (codes "{{lutArn}}") (get_or lut_arn (codes "N/A")) export_declaration_lut)
    else export_declaration_with_igst
