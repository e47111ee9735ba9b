-- ===== src/Tests/Strings.antt =====
-- Paths, the trie, and the escaping for JSON.
use rmlint.Common.{◌+◌, ◌≡◌, refl, false, [], ◌∷◌, some, length, if◌then◌else◌, arith}
use rmlint.Cfg.{Bytes}
use rmlint.Trie.{RmTrie, init, trie_insert, search, elements}
use rmlint.Trie.Laws.{same_path, search-trie_insert}
use rmlint.Formats.Json.{json_fix}
use rmlint.Formats.Json.Escape.{read_json, plain, json_fix-read_json, json_fix_overflow, letters}

-- /a/b
abbrev a_b : Bytes
a_b = b'/' ∷ b'a' ∷ b'/' ∷ b'b' ∷ []

-- /a/c
abbrev a_c : Bytes
a_c = b'/' ∷ b'a' ∷ b'/' ∷ b'c' ∷ []

abbrev trie : RmTrie
trie = trie_insert init a_b 5

search-trie_insert_example :
    (search (trie_insert trie a_c 7) a_b
      ≡ (if same_path (elements a_c) (elements a_b) then 7 else search trie a_b))
    × ((trie_insert trie a_c 7).size ≡ trie.size + 1)
search-trie_insert_example = search-trie_insert trie a_c 7 a_b

json_fix-read_json_example :
    read_json plain (json_fix (b'"' ∷ b'\n' ∷ 1 ∷ []) 100).0 ≡ some (b'"' ∷ b'\n' ∷ 1 ∷ [])
unfolding json_fix
json_fix-read_json_example =
    json_fix-read_json (b'"' ∷ b'\n' ∷ 1 ∷ []) 100
      (
        (omega arith, λ e. omega (arith, e)),
        ((omega arith, λ e. omega (arith, e)), ((omega arith, λ e. omega (arith, e)), tt)),
      )
      refl

json_fix_overflow_example :
    (length (json_fix (letters 3) 4).0 + 1 ≡ 10) × ((json_fix (letters 3) 4).1 ≡ false)
json_fix_overflow_example = json_fix_overflow 3
