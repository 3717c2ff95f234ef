-- ===== src/Baseline/Svg/Rows.antt =====
-- The upper part of the drawing of tools/render_baseline.rs, and a row of its table.
use rolly.Base.{ℕ, ◌+◌, ◌-◌, ◌/◌, ◌%◌, List, [], ◌∷◌, ◌==◌, if◌then◌else◌}
use rolly.Baseline.{Metadata, Arithmetic, Entry, hundred, us_of, short_name, xml_escape}
use rolly.Baseline.Svg.Layout.{
  width, row_h, header_y, height, bar_col_x, card_x, card_y, bar_color, bar_w,
}
use rolly.Baseline.Svg.Pieces.{Piece, lit, arg, num}

-- The root and the styles.
abbrev pub preamble : ℕ → List (List Piece)
preamble n_rows =
    (lit "<svg viewBox=\"0 0 "
      ∷ num width
      ∷ lit " "
      ∷ num (height n_rows)
      ∷ lit "\" xmlns=\"http://www.w3.org/2000/svg\">"
      ∷ [])
    ∷ (lit "  <style>" ∷ [])
    ∷ (lit "    .title { font: bold 18px monospace; fill: #1e293b; }" ∷ [])
    ∷ (lit "    .subtitle { font: 14px system-ui, -apple-system, sans-serif; fill: #64748b; }" ∷ [])
    ∷ (lit "    .col-hdr { font: bold 10px monospace; fill: #64748b; }" ∷ [])
    ∷ (lit "    .cell { font: 12px monospace; fill: #1e293b; }" ∷ [])
    ∷ (lit "    .cell-desc { font: 10px system-ui, -apple-system, sans-serif; fill: #94a3b8; }"
        ∷ [])
    ∷ (lit "    .summary { font: 12px monospace; fill: #1e293b; }" ∷ [])
    ∷ (lit "    .verdict { font: bold 12px monospace; }" ∷ [])
    ∷ (lit "    .footer { font: 10px system-ui, -apple-system, sans-serif; fill: #94a3b8; }" ∷ [])
    ∷ (lit "  </style>" ∷ [])
    ∷ []

-- The card with its title.
abbrev pub card : ℕ → Metadata → List (List Piece)
card n_rows metadata =
    (lit "  <rect width=\""
      ∷ num width
      ∷ lit "\" height=\""
      ∷ num (height n_rows)
      ∷ lit "\" fill=\"#fafafa\"/>"
      ∷ [])
    ∷ (lit "  <rect x=\""
        ∷ num card_x
        ∷ lit "\" y=\""
        ∷ num card_y
        ∷ lit "\" width=\""
        ∷ num (width - 32)
        ∷ lit "\" height=\""
        ∷ num (height n_rows - 24)
        ∷ lit "\" rx=\"8\" fill=\"#ffffff\" stroke=\"#e2e8f0\" stroke-width=\"1\"/>"
        ∷ [])
    ∷ (lit "  <rect x=\""
        ∷ num card_x
        ∷ lit "\" y=\""
        ∷ num card_y
        ∷ lit "\" width=\""
        ∷ num (width - 32)
        ∷ lit "\" height=\"4\" rx=\"8\" fill=\"#ea580c\"/>"
        ∷ [])
    ∷ (lit "  <text x=\""
        ∷ num (width / 2)
        ∷ lit "\" y=\"42\" text-anchor=\"middle\" class=\"title\">rolly v"
        ∷ arg (xml_escape metadata.version)
        ∷ lit " Performance Baseline</text>"
        ∷ [])
    ∷ (lit "  <text x=\""
        ∷ num (width / 2)
        ∷ lit "\" y=\"62\" text-anchor=\"middle\" class=\"subtitle\">"
        ∷ arg (xml_escape metadata.platform)
        ∷ lit " / "
        ∷ arg (xml_escape metadata.cpu)
        ∷ lit " / "
        ∷ arg (xml_escape metadata.date)
        ∷ lit "</text>"
        ∷ [])
    ∷ (lit "  <line x1=\"32\" y1=\"76\" x2=\""
        ∷ num (width - 32)
        ∷ lit "\" y2=\"76\" stroke=\"#e2e8f0\" stroke-width=\"1\"/>"
        ∷ [])
    ∷ []

abbrev pub column_headers : List (List Piece)
column_headers =
    (lit "  <text x=\"36\" y=\""
      ∷ num (header_y - 8)
      ∷ lit "\" class=\"col-hdr\">ENDPOINT</text>"
      ∷ [])
    ∷ (lit "  <text x=\""
        ∷ num bar_col_x
        ∷ lit "\" y=\""
        ∷ num (header_y - 8)
        ∷ lit "\" class=\"col-hdr\">LATENCY (us)</text>"
        ∷ [])
    ∷ (lit "  <text x=\"400\" y=\""
        ∷ num (header_y - 8)
        ∷ lit "\" class=\"col-hdr\">WEIGHT</text>"
        ∷ [])
    ∷ (lit "  <text x=\"460\" y=\""
        ∷ num (header_y - 8)
        ∷ lit "\" class=\"col-hdr\">ALLOCS</text>"
        ∷ [])
    ∷ (lit "  <text x=\"520\" y=\""
        ∷ num (header_y - 8)
        ∷ lit "\" class=\"col-hdr\">DESCRIPTION</text>"
        ∷ [])
    ∷ (lit "  <line x1=\"32\" y1=\""
        ∷ num (header_y - 2)
        ∷ lit "\" x2=\""
        ∷ num (width - 32)
        ∷ lit "\" y2=\""
        ∷ num (header_y - 2)
        ∷ lit "\" stroke=\"#e2e8f0\" stroke-width=\"0.5\"/>"
        ∷ [])
    ∷ []

abbrev pub row_background : ℕ → ℕ → List (List Piece)
row_background i y =
    if i % 2 == 0
    then (lit "  <rect x=\"32\" y=\""
        ∷ num y
        ∷ lit "\" width=\""
        ∷ num (width - 64)
        ∷ lit "\" height=\""
        ∷ num row_h
        ∷ lit "\" fill=\"#f8fafc\"/>"
        ∷ [])
      ∷ []
    else []

-- The row of an entry, with its description as it is shown.
abbrev pub row_lines : Arithmetic → ℕ → ℕ → Entry → List ℕ → List (List Piece)
row_lines f max_us y e desc =
    let us = us_of f e in
    (lit "  <text x=\"36\" y=\""
      ∷ num (y + 14)
      ∷ lit "\" class=\"cell\">"
      ∷ arg (xml_escape (short_name e.name))
      ∷ lit "</text>"
      ∷ [])
    ∷ (lit "  <rect x=\""
        ∷ num bar_col_x
        ∷ lit "\" y=\""
        ∷ num (y + 4)
        ∷ lit "\" width=\""
        ∷ num (bar_w f max_us us)
        ∷ lit "\" height=\"14\" rx=\"2\" fill=\""
        ∷ arg (bar_color f us)
        ∷ lit "\" opacity=\"0.8\"/>"
        ∷ [])
    ∷ (lit "  <text x=\""
        ∷ num (bar_col_x + bar_w f max_us us + 4)
        ∷ lit "\" y=\""
        ∷ num (y + 14)
        ∷ lit "\" class=\"cell\">"
        ∷ arg (f.fixed 1 us)
        ∷ lit "</text>"
        ∷ [])
    ∷ (lit "  <text x=\"400\" y=\""
        ∷ num (y + 14)
        ∷ lit "\" class=\"cell\">"
        ∷ arg (f.fixed 0 (f.mul e.weight hundred))
        ∷ lit "%</text>"
        ∷ [])
    ∷ (lit "  <text x=\"460\" y=\""
        ∷ num (y + 14)
        ∷ lit "\" class=\"cell\">"
        ∷ num e.bench.allocations_approx
        ∷ lit "</text>"
        ∷ [])
    ∷ (lit "  <text x=\"520\" y=\""
        ∷ num (y + 25)
        ∷ lit "\" class=\"cell-desc\">"
        ∷ arg (xml_escape desc)
        ∷ lit "</text>"
        ∷ [])
    ∷ (lit "  <line x1=\"32\" y1=\""
        ∷ num (y + row_h)
        ∷ lit "\" x2=\""
        ∷ num (width - 32)
        ∷ lit "\" y2=\""
        ∷ num (y + row_h)
        ∷ lit "\" stroke=\"#e2e8f0\" stroke-width=\"0.5\"/>"
        ∷ [])
    ∷ []
