-- ===== src/Names/Words.antt =====
-- pkg/names/words.go: the three tables.
use vapora.Base.{List, [], ◌∷◌, Bytes}
use Prim.Native.Char.{code}
use Prim.Native.String.{String}

-- The bytes of a word, which are ASCII.
abbrev bytes_of : String → Bytes
bytes_of String.[] = []
bytes_of (String.◌∷◌ c s) = code c ∷ bytes_of s

abbrev pub adjectives : List Bytes
adjectives =
    bytes_of "SWIFT"
    ∷ bytes_of "QUIET"
    ∷ bytes_of "BOLD"
    ∷ bytes_of "SLY"
    ∷ bytes_of "CALM"
    ∷ bytes_of "KEEN"
    ∷ bytes_of "WILD"
    ∷ bytes_of "LUCKY"
    ∷ bytes_of "BRAVE"
    ∷ bytes_of "CLEVER"
    ∷ bytes_of "GENTLE"
    ∷ bytes_of "PROUD"
    ∷ bytes_of "SLEEPY"
    ∷ bytes_of "EAGER"
    ∷ bytes_of "STEADY"
    ∷ bytes_of "NIMBLE"
    ∷ bytes_of "FIERCE"
    ∷ bytes_of "HUMBLE"
    ∷ bytes_of "MERRY"
    ∷ bytes_of "SOLEMN"
    ∷ bytes_of "RESTLESS"
    ∷ bytes_of "PATIENT"
    ∷ bytes_of "CURIOUS"
    ∷ bytes_of "STUBBORN"
    ∷ bytes_of "GRACEFUL"
    ∷ bytes_of "RUGGED"
    ∷ bytes_of "TIDY"
    ∷ bytes_of "WEARY"
    ∷ bytes_of "SUNNY"
    ∷ bytes_of "STORMY"
    ∷ bytes_of "FROSTY"
    ∷ bytes_of "DUSTY"
    ∷ []

abbrev pub colours : List Bytes
colours =
    bytes_of "CRIMSON"
    ∷ bytes_of "SCARLET"
    ∷ bytes_of "CHERRY"
    ∷ bytes_of "RUBY"
    ∷ bytes_of "FLAME"
    ∷ bytes_of "EMBER"
    ∷ bytes_of "RUST"
    ∷ bytes_of "COPPER"
    ∷ bytes_of "BRONZE"
    ∷ bytes_of "AMBER"
    ∷ bytes_of "GOLD"
    ∷ bytes_of "SAFFRON"
    ∷ bytes_of "MARIGOLD"
    ∷ bytes_of "HONEY"
    ∷ bytes_of "BUTTER"
    ∷ bytes_of "LEMON"
    ∷ bytes_of "STRAW"
    ∷ bytes_of "CREAM"
    ∷ bytes_of "IVORY"
    ∷ bytes_of "LINEN"
    ∷ bytes_of "PEARL"
    ∷ bytes_of "SNOW"
    ∷ bytes_of "ASH"
    ∷ bytes_of "SILVER"
    ∷ bytes_of "STEEL"
    ∷ bytes_of "SLATE"
    ∷ bytes_of "KHAKI"
    ∷ bytes_of "SAND"
    ∷ bytes_of "TAN"
    ∷ bytes_of "CLAY"
    ∷ bytes_of "OCHRE"
    ∷ bytes_of "SIENNA"
    ∷ bytes_of "CORAL"
    ∷ bytes_of "SALMON"
    ∷ bytes_of "PEACH"
    ∷ bytes_of "APRICOT"
    ∷ bytes_of "ROSE"
    ∷ bytes_of "BLUSH"
    ∷ bytes_of "MAGENTA"
    ∷ bytes_of "ORCHID"
    ∷ bytes_of "LILAC"
    ∷ bytes_of "LAVENDER"
    ∷ bytes_of "PERIWINKLE"
    ∷ bytes_of "VIOLET"
    ∷ bytes_of "PLUM"
    ∷ bytes_of "INDIGO"
    ∷ bytes_of "COBALT"
    ∷ bytes_of "AZURE"
    ∷ bytes_of "SKY"
    ∷ bytes_of "FROST"
    ∷ bytes_of "CYAN"
    ∷ bytes_of "AQUA"
    ∷ bytes_of "TURQUOISE"
    ∷ bytes_of "SEAFOAM"
    ∷ bytes_of "TEAL"
    ∷ bytes_of "MINT"
    ∷ bytes_of "JADE"
    ∷ bytes_of "EMERALD"
    ∷ bytes_of "SAGE"
    ∷ bytes_of "MOSS"
    ∷ bytes_of "FERN"
    ∷ bytes_of "OLIVE"
    ∷ bytes_of "LIME"
    ∷ bytes_of "CHARTREUSE"
    ∷ []

abbrev pub animals : List Bytes
animals =
    bytes_of "OTTER"
    ∷ bytes_of "BADGER"
    ∷ bytes_of "FALCON"
    ∷ bytes_of "MARTEN"
    ∷ bytes_of "HERON"
    ∷ bytes_of "LYNX"
    ∷ bytes_of "RAVEN"
    ∷ bytes_of "BISON"
    ∷ bytes_of "WOMBAT"
    ∷ bytes_of "PANGOLIN"
    ∷ bytes_of "CARACAL"
    ∷ bytes_of "OKAPI"
    ∷ bytes_of "TAPIR"
    ∷ bytes_of "IBEX"
    ∷ bytes_of "MARMOT"
    ∷ bytes_of "OSPREY"
    ∷ bytes_of "NARWHAL"
    ∷ bytes_of "AXOLOTL"
    ∷ bytes_of "QUOKKA"
    ∷ bytes_of "SERVAL"
    ∷ bytes_of "KESTREL"
    ∷ bytes_of "MANATEE"
    ∷ bytes_of "JERBOA"
    ∷ bytes_of "FOSSA"
    ∷ bytes_of "COYOTE"
    ∷ bytes_of "PUFFIN"
    ∷ bytes_of "GECKO"
    ∷ bytes_of "MAGPIE"
    ∷ bytes_of "WALRUS"
    ∷ bytes_of "SHRIKE"
    ∷ bytes_of "CIVET"
    ∷ bytes_of "DINGO"
    ∷ bytes_of "ORYX"
    ∷ bytes_of "SALAMANDER"
    ∷ bytes_of "TOUCAN"
    ∷ bytes_of "URCHIN"
    ∷ bytes_of "VIPER"
    ∷ bytes_of "WEASEL"
    ∷ bytes_of "YAK"
    ∷ bytes_of "ZEBU"
    ∷ bytes_of "ALBATROSS"
    ∷ bytes_of "BEAVER"
    ∷ bytes_of "CHAMOIS"
    ∷ bytes_of "DUGONG"
    ∷ bytes_of "EIDER"
    ∷ bytes_of "FERRET"
    ∷ bytes_of "GIBBON"
    ∷ bytes_of "HOOPOE"
    ∷ bytes_of "IGUANA"
    ∷ bytes_of "JACKAL"
    ∷ bytes_of "KRILL"
    ∷ bytes_of "LEMUR"
    ∷ bytes_of "MOOSE"
    ∷ bytes_of "NUTHATCH"
    ∷ bytes_of "OCELOT"
    ∷ bytes_of "PLOVER"
    ∷ bytes_of "QUAIL"
    ∷ bytes_of "RACCOON"
    ∷ bytes_of "STOAT"
    ∷ bytes_of "TERN"
    ∷ bytes_of "UAKARI"
    ∷ bytes_of "VICUNA"
    ∷ bytes_of "WAPITI"
    ∷ bytes_of "XERUS"
    ∷ []
