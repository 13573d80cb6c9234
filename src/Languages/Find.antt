-- ===== src/Languages/Find.antt =====
-- `find` of backend/src/languages.rs on the table.
use ryu_subtitles.Prelude.{
  ◌≡◌, refl, ◌⊎◌, some, List, [], ◌∷◌, arith, true, All, Bool-cases, inl, inr,
}
use ryu_subtitles.Text.{
  Text, trim, trim_start, trim_end, is_whitespace, text_eq, to_ascii_lowercase,
}
use ryu_subtitles.Languages.{Language, languages, eq_ignore_ascii_case, find_code, find}

-- Every language of the table is found by its own code.
pub find-own_code : All (λ l. find l.code ≡ some l) languages
unfolding languages find find_code eq_ignore_ascii_case to_ascii_lowercase trim trim_start trim_end
    is_whitespace text_eq
find-own_code = (
  refl,
  (
    refl,
    (
      refl,
      (
        refl,
        (
          refl,
          (
            refl,
            (
              refl,
              (
                refl,
                (
                  refl,
                  (
                    refl,
                    (
                      refl,
                      (
                        refl,
                        (
                          refl,
                          (
                            refl,
                            (
                              refl,
                              (
                                refl,
                                (
                                  refl,
                                  (
                                    refl,
                                    (
                                      refl,
                                      (
                                        refl,
                                        (
                                          refl,
                                          (
                                            refl,
                                            (
                                              refl,
                                              (
                                                refl,
                                                (
                                                  refl,
                                                  (
                                                    refl,
                                                    (
                                                      refl,
                                                      (
                                                        refl,
                                                        (
                                                          refl,
                                                          (
                                                            refl,
                                                            (refl, (refl, (refl, (refl, tt)))),
                                                          ),
                                                        ),
                                                      ),
                                                    ),
                                                  ),
                                                ),
                                              ),
                                            ),
                                          ),
                                        ),
                                      ),
                                    ),
                                  ),
                                ),
                              ),
                            ),
                          ),
                        ),
                      ),
                    ),
                  ),
                ),
              ),
            ),
          ),
        ),
      ),
    ),
  ),
)

-- What the lookup returns is an entry of the table whose code is the trimmed one up to ASCII case.
abbrev pub IsEntry : Text → Language → List Language → Type 0
IsEntry code l [] = ⊥
IsEntry code l (m ∷ ms) = ((l ≡ m) × (eq_ignore_ascii_case m.code code ≡ true)) ⊎ IsEntry code l ms

find_code-IsEntry :
    (code : Text) (l : Language) (ls : List Language)
    → find_code code ls ≡ some l
    → IsEntry code l ls
unfolding find_code
find_code-IsEntry code l [] h = cc
find_code-IsEntry code l (m ∷ ms) h = elim (Bool-cases (eq_ignore_ascii_case m.code code)) [
  | inl e ↦ inl (ground arith, e)
  | inr e ↦ inr (find_code-IsEntry code l ms (ground arith))
]

-- The lookup is closed: it returns entries of the table only, and only for their own code.
pub find-IsEntry :
    (code : Text) (l : Language) → find code ≡ some l → IsEntry (trim code) l languages
unfolding find
find-IsEntry code l h = find_code-IsEntry (trim code) l languages h
