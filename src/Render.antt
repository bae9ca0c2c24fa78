-- ===== src/Render.antt =====
-- src/render: the template engine.
pub mod TemplateCache
pub mod Template
