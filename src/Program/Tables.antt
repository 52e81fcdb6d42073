-- ===== src/Program/Tables.antt =====
-- The tables of `aribExternalFlagName` in web/app.js: the symbols of the ARIB external characters and
-- of older texts, with their names; and the flags of `stripProgramFlags` and `programFlagNames`.
use strata_pvr.Base.{ℕ, String, List, [], ◌∷◌}

-- The symbols by their code points.
abbrev pub names : List (ℕ × String)
names =
    (0xe0f8, "HV")
    ∷ (0xe0f9, "SD")
    ∷ (0xe0fa, "P")
    ∷ (0xe0fb, "W")
    ∷ (0xe0fc, "MV")
    ∷ (0xe0fd, "手")
    ∷ (0xe0fe, "字")
    ∷ (0xe0ff, "双")
    ∷ (0xe180, "デ")
    ∷ (0xe181, "S")
    ∷ (0xe182, "二")
    ∷ (0xe183, "多")
    ∷ (0xe184, "解")
    ∷ (0xe185, "SS")
    ∷ (0xe186, "B")
    ∷ (0xe187, "N")
    ∷ (0xe18a, "天")
    ∷ (0xe18b, "交")
    ∷ (0xe18c, "映")
    ∷ (0xe18d, "無")
    ∷ (0xe18e, "料")
    ∷ (0x26bf, "鍵マーク")
    ∷ (0xe190, "前")
    ∷ (0xe191, "後")
    ∷ (0xe192, "再")
    ∷ (0xe193, "新")
    ∷ (0xe194, "初")
    ∷ (0xe195, "終")
    ∷ (0xe196, "生")
    ∷ (0xe197, "販")
    ∷ (0xe198, "声")
    ∷ (0xe199, "吹")
    ∷ (0xe19a, "PPV")
    ∷ (0x3299, "秘")
    ∷ (0xe19c, "ほか")
    ∷ []

abbrev pub legacy_names : List (ℕ × String)
legacy_names =
    (0x1f21f, "新")
    ∷ (0x1f221, "終")
    ∷ (0x1f21e, "再")
    ∷ (0x1f211, "字")
    ∷ (0x1f213, "デ")
    ∷ (0x1f216, "解")
    ∷ (0x1f21a, "無")
    ∷ (0x1f214, "二")
    ∷ (0x1f142, "S")
    ∷ (0x1f14d, "SS")
    ∷ (0x1f220, "初")
    ∷ (0x1f222, "生")
    ∷ (0x1f13d, "N")
    ∷ (0x1f219, "映")
    ∷ (0x1f215, "多")
    ∷ (0x1f212, "双")
    ∷ []

-- The flags that a title may hold in brackets, in the order of the pattern of `stripProgramFlags`.
abbrev pub known_flags : List String
known_flags =
    "無料" ∷ "生放送" ∷ "新" ∷ "終" ∷ "再" ∷ "字" ∷ "デ" ∷ "解" ∷ "無" ∷ "二" ∷ "S" ∷ "SS" ∷ "初" ∷ "生" ∷ "Ｎ"
    ∷ "映" ∷ "多" ∷ "双" ∷ []

-- Those of `programFlagNames`, and its `aliases`.
abbrev pub listed_flags : List String
listed_flags =
    "新" ∷ "終" ∷ "再" ∷ "字" ∷ "デ" ∷ "解" ∷ "無" ∷ "二" ∷ "S" ∷ "SS" ∷ "初" ∷ "生" ∷ "Ｎ" ∷ "映" ∷ "多" ∷ "双"
    ∷ []

abbrev pub aliases : List (String × String)
aliases = ("無料", "無") ∷ ("生放送", "生") ∷ []
