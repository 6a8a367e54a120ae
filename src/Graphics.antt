-- ===== src/Graphics.antt =====
-- kernel/graphics: points and rectangles, frame buffers, layers, consoles.
pub mod Geometry
pub mod Color
pub mod Frame
pub mod Layers
pub mod Console
pub mod Painter
pub mod Draw
