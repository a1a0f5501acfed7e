-- ===== src/App/Definition.antt =====
-- `GameDef::Load` of carbon-pc/src/app/GameDef.cpp. The XML library is a parameter: its elements, and
-- its answers to the calls that the reader makes. An `int` is its bit pattern.
pub mod Titles
use Prim.Native.String.{String}
use open_carbon.Base.{
  ℕ, zero, suc, ◌%◌, ◌^◌, List, [], ◌∷◌, Option, none, some, Bool, true, false, not, ◌==◌, leb,
  if◌then◌else◌,
}

-- `FirstChildElement`, `NextSiblingElement`, `Attribute` and a successful `QueryIntAttribute`.
pub record Xml : Type 1 where
  pub Element : Type 0
  pub first_child : Element → String → Option Element
  pub next_sibling : Element → String → Option Element
  pub attribute : Element → String → Option String
  pub int_attribute : Element → String → Option ℕ

-- `GameEntry` with all its fields.
pub record Entry : Type 0 where
  pub id : ℕ
  pub name : String
  pub engine : String
  pub rom_name : String
  pub preview_image : String
  pub description : String

-- `GameDef`
pub record GameDef : Type 0 where
  pub button_a : String
  pub button_b : String
  pub button_b_enabled : Bool
  pub splash1 : String
  pub splash2 : String
  pub select_icon : String
  pub menu_background : String
  pub main_menu_bar : String
  pub menu_sprite : String
  pub game_logo : String
  pub description_bar : String
  pub menu_background_enabled : Bool
  pub menu_background_scrolling : Bool
  pub menu_sprite_enabled : Bool
  pub menu_sprite_width : ℕ
  pub menu_sprite_height : ℕ
  pub game_logo_enabled : Bool
  pub pause_menu_image : String
  pub side_pause_menu : String
  pub top_pause_menu : String
  pub in_game_background : String
  pub in_game_menu_bar : String
  pub save_state_box : String
  pub dialog_box : String
  pub control_image : String
  pub pause_menu_image_enabled : Bool
  pub side_pause_menu_enabled : Bool
  pub top_pause_menu_enabled : Bool
  pub in_game_background_enabled : Bool
  pub font : String
  pub font_small : String
  pub package_name : String
  pub credits_document : String
  pub titles : List Entry

-- An attribute that may be missing, as each query takes it.
unfoldable pub bool_or : Bool → Option ℕ → Bool
bool_or old none = old
bool_or old (some v) = not (v % 2 ^ 8 == 0)

unfoldable pub short_or : ℕ → Option ℕ → ℕ
short_or old none = old
short_or old (some v) = v % 2 ^ 16

abbrev pub int_or : ℕ → Option ℕ → ℕ
int_or old none = old
int_or old (some v) = v

abbrev pub text_or_empty : Option String → String
text_or_empty none = ""
text_or_empty (some v) = v

module _ (xml : Xml) where
  open xml use {Element, first_child, next_sibling, attribute, int_attribute}

  unfoldable pub query_bool : Option Element → String → Bool → Bool
  unfolding bool_or
  query_bool none attr old = old
  query_bool (some e) attr old = bool_or old (int_attribute e attr)

  unfoldable pub query_short : Option Element → String → ℕ → ℕ
  unfolding short_or
  query_short none attr old = old
  query_short (some e) attr old = short_or old (int_attribute e attr)

  unfoldable pub query_string : Option Element → String → String
  query_string none attr = ""
  query_string (some e) attr = text_or_empty (attribute e attr)

  -- `e ? e->FirstChildElement(name) : nullptr`
  abbrev pub child : Option Element → String → Option Element
  child none name = none
  child (some e) name = first_child e name

  -- `Path`, from the document's `carbon` element on.
  unfoldable pub path : Option Element → List String → Option Element
  path e [] = e
  path e (name ∷ rest) = path (child e name) rest

  unfoldable pub asset_name : Option Element → String → String → String
  unfolding path query_string
  asset_name carbon group name =
      query_string (path carbon ("assets" ∷ group ∷ name ∷ [])) "assetName"

  unfoldable pub read_entry : Element → Entry
  unfolding query_string
  read_entry game = record {
    id = int_or 0 (int_attribute game "id");
    name = query_string (some game) "name";
    engine = query_string (some game) "engine";
    rom_name = query_string (some game) "romName";
    preview_image = query_string (some game) "previewImage";
    description = query_string (some game) "description";
  }

  -- `for (int i = 0; i < count && game; ++i)`
  unfoldable pub read_titles : ℕ → Option Element → List Entry
  unfolding read_entry
  read_titles zero game = []
  read_titles (suc left) none = []
  read_titles (suc left) (some game) = read_entry game ∷ read_titles left (next_sibling game "game")

  -- `int count`: a negative one reads no title.
  unfoldable pub title_limit : Option Element → ℕ
  title_limit none = 0
  title_limit (some e) =
      let count = int_or 0 (int_attribute e "count") in if leb (2 ^ 31) count then 0 else count

  -- `Load` of a definition whose fields still have their initial values, from the `carbon` element.
  unfoldable pub load_definition : Option Element → GameDef
  unfolding query_bool query_short query_string path asset_name read_titles title_limit
  load_definition carbon =
      let titles_el = child carbon "titles" in
      let bb = path carbon ("assets" ∷ "common" ∷ "Button_B" ∷ []) in
      let bg = path carbon ("assets" ∷ "mainMenu" ∷ "MenuBackground" ∷ []) in
      let sprite = path carbon ("assets" ∷ "mainMenu" ∷ "MenuSprite" ∷ []) in
      let logo = path carbon ("assets" ∷ "mainMenu" ∷ "GameLogo" ∷ []) in
      let pmi = path carbon ("assets" ∷ "inGameMenu" ∷ "PauseMenuImage" ∷ []) in
      let side = path carbon ("assets" ∷ "inGameMenu" ∷ "SidePauseMenu" ∷ []) in
      let top = path carbon ("assets" ∷ "inGameMenu" ∷ "TopPauseMenu" ∷ []) in
      let igb = path carbon ("assets" ∷ "inGameMenu" ∷ "InGameBackground" ∷ []) in
      record {
        package_name = query_string carbon "packageName";
        titles = read_titles (title_limit titles_el) (child titles_el "game");
        splash1 = asset_name carbon "intro" "Splash1";
        splash2 = asset_name carbon "intro" "Splash2";
        button_a = asset_name carbon "common" "Button_A";
        button_b = query_string bb "assetName";
        button_b_enabled = query_bool bb "enabled" false;
        select_icon = asset_name carbon "common" "SelectIcon";
        menu_background = query_string bg "assetName";
        menu_background_enabled = query_bool bg "enabled" false;
        menu_background_scrolling = query_bool bg "scrolling" false;
        main_menu_bar = asset_name carbon "mainMenu" "MenuBar";
        description_bar = asset_name carbon "mainMenu" "DescriptionBar";
        font = query_string (path carbon ("assets" ∷ "mainMenu" ∷ "font" ∷ [])) "name";
        font_small = query_string (path carbon ("assets" ∷ "mainMenu" ∷ "fontSmall" ∷ [])) "name";
        menu_sprite = query_string sprite "assetName";
        menu_sprite_enabled = query_bool sprite "enabled" false;
        menu_sprite_width = query_short sprite "width" 0;
        menu_sprite_height = query_short sprite "height" 0;
        game_logo = query_string logo "assetName";
        game_logo_enabled = query_bool logo "enabled" false;
        pause_menu_image = query_string pmi "assetName";
        pause_menu_image_enabled = query_bool pmi "enabled" false;
        side_pause_menu = query_string side "assetName";
        side_pause_menu_enabled = query_bool side "enabled" false;
        top_pause_menu = query_string top "assetName";
        top_pause_menu_enabled = query_bool top "enabled" false;
        in_game_background = query_string igb "assetName";
        in_game_background_enabled = query_bool igb "enabled" false;
        save_state_box = asset_name carbon "inGameMenu" "SaveStateBox";
        dialog_box = asset_name carbon "inGameMenu" "DialogBox";
        in_game_menu_bar = asset_name carbon "inGameMenu" "MenuBar";
        control_image = asset_name carbon "inGameMenu" "ControlImage";
        credits_document =
            query_string (path carbon ("assets" ∷ "creditsMenu" ∷ "splashData" ∷ [])) "document";
      }
