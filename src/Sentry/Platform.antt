-- ===== src/Sentry/Platform.antt =====
-- internal/sentry/platform.go: the platform family of an event.
use crashcart.Base.{Bool, true, false, ◌&&◌, ◌||◌, List, [], ◌∷◌, map, if◌then◌else◌, some_row}
use crashcart.Base.Text.{Bytes, codes, str_eq, contains, has_suffix, lower_byte}

pub data Family : Type 0 where
  ios android flutter react_native web backend other : Family

-- The text of a family.
unfoldable pub family_text : Family → Bytes
family_text ios = codes "ios"
family_text android = codes "android"
family_text flutter = codes "flutter"
family_text react_native = codes "react-native"
family_text web = codes "web"
family_text backend = codes "backend"
family_text other = codes "other"

-- `Families`.
abbrev pub families : List Family
families = ios ∷ android ∷ flutter ∷ react_native ∷ web ∷ backend ∷ other ∷ []

-- `IsFamily`.
unfoldable pub is_family : Bytes → Bool
is_family s = some_row (λ f. str_eq (family_text f) s) families

abbrev one_of : List Bytes → Bytes → Bool
one_of names s = some_row (str_eq s) names

abbrev names_one_of : List Bytes → Bytes → Bool
names_one_of words s = some_row (contains s) words

-- The part of `Family` that goes by the platform. Both texts are lower-case.
unfoldable pub platform_family : Bytes → Bytes → Family
platform_family platform sdk =
    if one_of
      (codes "cocoa"
        ∷ codes "ios"
        ∷ codes "macos"
        ∷ codes "swift"
        ∷ codes "objc"
        ∷ codes "apple"
        ∷ [])
      platform
    then ios
    else if str_eq platform (codes "android")
    then android
    else if str_eq platform (codes "javascript")
    then if str_eq sdk []
        || names_one_of
            (codes "browser"
              ∷ codes "react"
              ∷ codes "vue"
              ∷ codes "angular"
              ∷ codes "svelte"
              ∷ codes "nextjs"
              ∷ codes "astro"
              ∷ [])
            sdk
      then web
      else backend
    else if one_of
        (codes "java"
          ∷ codes "node"
          ∷ codes "go"
          ∷ codes "python"
          ∷ codes "csharp"
          ∷ codes "ruby"
          ∷ codes "php"
          ∷ codes "elixir"
          ∷ codes "rust"
          ∷ codes "perl"
          ∷ codes "native"
          ∷ codes "powershell"
          ∷ codes "dotnet"
          ∷ [])
        platform
    then backend
    else if str_eq platform (codes "other") && contains sdk (codes "dart")
    then backend
    else other

-- `Family`, on texts in ASCII.
unfoldable pub family : Bytes → Bytes → Family
family platform sdk_name =
    let sdk = map lower_byte sdk_name in
    if contains sdk (codes "flutter")
    then flutter
    else if contains sdk (codes "react-native") || contains sdk (codes "reactnative")
    then react_native
    else if contains sdk (codes ".android") || has_suffix sdk (codes "android")
    then android
    else platform_family (map lower_byte platform) sdk

-- `Accepts`.
unfoldable pub accepts : Bytes → Bytes → Bool
accepts project event =
    if str_eq project [] || str_eq project (codes "other") || str_eq project event
    then true
    else if str_eq project (codes "flutter")
    then one_of (codes "ios" ∷ codes "android" ∷ codes "other" ∷ []) event
    else if str_eq project (codes "react-native")
    then one_of (codes "ios" ∷ codes "android" ∷ codes "web" ∷ []) event
    else false
