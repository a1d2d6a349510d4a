-- ===== src/Tests/Json.antt =====
-- What `extract_json` makes of the answers that models give.
use pullsmith.Common.{◌≡◌, refl}
use pullsmith.Llm.ExtractJson.{extract_json}

extract_json_plain : extract_json " {\"a\": 1} " ≡ "{\"a\": 1}"
unfolding extract_json
extract_json_plain = refl

extract_json_fenced : extract_json "Sure:\n```json\n{\"a\": 1}\n```\nDone." ≡ "{\"a\": 1}"
unfolding extract_json
extract_json_fenced = refl

extract_json_prose : extract_json "It is {\"a\": {}} I think." ≡ "{\"a\": {}}"
unfolding extract_json
extract_json_prose = refl

extract_json_empty_fence : extract_json "``` ```" ≡ ""
unfolding extract_json
extract_json_empty_fence = refl
