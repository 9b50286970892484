-- ===== src/Lib.antt =====
-- The scripts of FEB, a search tool for federations of learning objects: the code that its pages
-- run in the browser. Paths below are from the root of the repository; `scripts` stands for
-- src/src/main/webapp/scripts.
--
-- - Base: shared names, tests, lists, text as UTF-16 code units, split, join and replace; Run
--   has the functions of a script as steps on a state that may throw, and Policy what such a step
--   is allowed to do to the state, with the rules by which the calls of a function pass that on.
-- - Regex: regular expressions as the scripts use them with `test`: their syntax, the texts that
--   they match, a matcher by derivatives, and the proof that it decides the match.
-- - Validate: scripts/validatejs.js. Formats has the validators that are one expression each,
--   Platform isPlatform, Dates `isZipCode` and `isDate` with the variables that they leave behind,
--   Chars `hasValidChars`, Cpf `isCPF`, Rules the object with `addRules`, `check` and `Apply`, and
--   Login the form of scripts/login.js. Numbers in floating point, the case table of Unicode and
--   `eval` are fields of the record Engine; an error that the script throws is a value of Result.
-- - Metadata: scripts/showMetadata.js, `buildList` and, in Loading, the request whose answer it
--   is given. Reader is a reader of tags, by which Outline says what the lists show.
-- - Update: the requests of scripts/funcoes.js that update a repository or a federation.
-- - Page: the part of a document that the scripts with tables read and write; Editing has an
--   element whose content is replaced and put back, Links the links that save, and Extended a page
--   with a row more.
-- - Standard: scripts/funcoesPadrao.js. Handlers has a function for each of the file's, as a
--   step on the variables, the page and the requests that were sent; Events puts these and the
--   changes of requests in any order. Table is the specification of its table: rows by their ids,
--   and a counter. Unsaved is about a row that is added while another one is not saved. What a
--   browser finds in a text of HTML is an argument.
-- - Mapping: scripts/funcoesMapeamento.js, in the same way as Standard. Walk says which steps a
--   policy has to allow so that every call is allowed; Buttons and Table fill it. Unsaved is about
--   a row that is added while another one is not saved.
-- - Oai: scripts/validateOAI.js, with the calls of jQuery as values.
-- - Search: the test of the query in scripts/index.js.
-- - Chart: the charts of scripts/statistics.js; the unary `+` on a text is an argument.
-- - Tags: the other half of scripts/statistics.js, which deletes the terms of the tag cloud; Events
--   puts clicks and answers in any order.
-- - Windows: the functions of scripts/funcoes.js that open, place and close windows, as lists of
--   the calls that they make; what a text is as a number is an argument.
-- - Fields: the other functions of scripts/funcoes.js, for keys, texts and parts of forms.
-- - Dialogs: scripts/admin/admin.js, the dialogs around a deletion; Events has what the user can
--   do and the answers, and Phases the specification of a deletion.
-- - Links: scripts/testUrlActive.js. Each link is a state that the answers of two services
--   change; Outcome is about what it shows in the end, and Finished about when that is.
-- - Trees: scripts/buscaAvancada.js, the boxes that follow the trees of the advanced search; Runs
--   puts changes of the selections in any order.
-- - Shell: toggleSearch.js, barraSuperior.js, zebraScript.js, rss.js, autosuggest.js and
--   admin/repositories/new.js of scripts; Widgets has what the scripts hand to the libraries as
--   options.
--
-- Text is the list of its code units, so that an index of the script is an index of the list. All
-- loops are over a text, a list or a number of rounds known beforehand. Only the digits of a number
-- (Base.Decimal) are written on fuel, one more than the number, and any fuel above it gives the same.
--
-- Not modelled: the server (Java), the pages (JSP), the copy of Solr's own administration pages, the
-- vendored libraries (jQuery, Bootstrap, CodeMirror, jsTree, typeahead), and what these make of the
-- options that they are given.
pub mod Base
pub mod Regex
pub mod Validate
pub mod Metadata
pub mod Chart
pub mod Trees
pub mod Update
pub mod Dialogs
pub mod Fields
pub mod Links
pub mod Mapping
pub mod Oai
pub mod Page
pub mod Search
pub mod Shell
pub mod Standard
pub mod Tags
pub mod Windows
